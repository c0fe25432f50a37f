-- ===== src/Extractors/Validators.antt =====
-- src/hawiya/extractors/validators.py: the check digits of ICAO 9303.
use hawiya_ai.Prelude.{
  ℕ, ◌+◌, ◌-◌, ◌*◌, ◌%◌, ◌≡◌, refl, Bool, true, ◌&&◌, List, [], ◌∷◌, leb, ◌==◌, if◌then◌else◌,
  get_or, ok, err, ◌>>=◌,
}
use hawiya_ai.Text.{Text, text, is_ascii_digit}
use hawiya_ai.Extractors.Types.{Attempt, value_error}

abbrev pub weights : List ℕ
weights = 7 ∷ 3 ∷ 1 ∷ []

abbrev pub filler : ℕ
filler = b'<'

abbrev pub is_upper : ℕ → Bool
is_upper c = leb b'A' c && leb c b'Z'

-- `char_value`, of one character: a Python text is walked a character at a time.
unfoldable pub char_value : ℕ → Attempt ℕ
char_value ch =
    if ch == filler
    then ok 0
    else if is_ascii_digit ch
    then ok (ch - b'0')
    else if is_upper ch
    then ok (ch - b'A' + 10)
    else err value_error

-- The loop of `compute_check_digit`, at index `i`.
unfoldable pub weighted_sum : ℕ → ℕ → Text → Attempt ℕ
unfolding char_value
weighted_sum i total [] = ok total
weighted_sum i total (ch ∷ field) = do
  v ← char_value ch
  weighted_sum (i + 1) (total + v * get_or weights (i % 3) 0) field

unfoldable pub compute_check_digit : Text → Attempt ℕ
unfolding weighted_sum
compute_check_digit field = do total ← weighted_sum 0 0 field; ok (total % 10)

unfoldable pub parse_check_digit : ℕ → Attempt ℕ
parse_check_digit ch =
    if ch == filler then ok 0 else if is_ascii_digit ch then ok (ch - b'0') else err value_error

unfoldable pub verify : Text → ℕ → Attempt Bool
unfolding compute_check_digit parse_check_digit
verify field check_digit_char = do
  computed ← compute_check_digit field
  given ← parse_check_digit check_digit_char
  ok (computed == given)

-- The examples of ICAO 9303, Part 3.
verify_tests :
    (compute_check_digit (text "520727") ≡ ok 3)
    × (compute_check_digit (text "AB2134<<<") ≡ ok 5)
    × (verify (text "L898902C3") b'6' ≡ ok true)
unfolding verify
verify_tests = (refl, refl, refl)
