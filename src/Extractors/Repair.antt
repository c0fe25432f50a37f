-- ===== src/Extractors/Repair.antt =====
-- `repair_mrz_chars` of src/hawiya/extractors/mrz.py: the class of each character is known, so letters
-- read for digits, and digits for letters, are put back.
pub mod Lengths
pub mod Places
pub mod Twice
use hawiya_ai.Prelude.{
  ℕ, ◌≡◌, refl, List, [], ◌∷◌, ◌++◌, leb, if◌then◌else◌, length, take, drop, slice,
}
use hawiya_ai.Text.{Text, text, translate}
use hawiya_ai.Extractors.Mrz.{td3_line_length}

abbrev pub digit_to_alpha : List (ℕ × ℕ)
digit_to_alpha = (b'0', b'O') ∷ (b'1', b'I') ∷ (b'2', b'Z') ∷ (b'5', b'S') ∷ (b'8', b'B') ∷ []

abbrev pub alpha_to_digit : List (ℕ × ℕ)
alpha_to_digit =
    (b'O', b'0')
    ∷ (b'Q', b'0')
    ∷ (b'I', b'1')
    ∷ (b'L', b'1')
    ∷ (b'Z', b'2')
    ∷ (b'S', b'5')
    ∷ (b'B', b'8')
    ∷ []

abbrev pub line1_repair_min : ℕ
line1_repair_min = 5

-- `target[i:j] = list(line[i:j].translate(table))`.
unfoldable pub fix : List (ℕ × ℕ) → ℕ → ℕ → Text → Text → Text
unfolding translate
fix table i j line target = take i target ++ (translate table (slice i j line) ++ drop j target)

unfoldable pub repair_line1 : Text → Text
unfolding fix
repair_line1 line1 =
    if leb line1_repair_min (length line1) then fix digit_to_alpha 2 5 line1 line1 else line1

unfoldable pub repair_fields : Text → Text
unfolding fix
repair_fields line2 =
    let l2 = fix alpha_to_digit 9 10 line2 line2 in
    let l2 = fix digit_to_alpha 10 13 line2 l2 in
    let l2 = fix alpha_to_digit 13 20 line2 l2 in
    let l2 = fix alpha_to_digit 21 28 line2 l2 in
    let l2 = fix alpha_to_digit 42 43 line2 l2 in fix alpha_to_digit 43 44 line2 l2

unfoldable pub repair_line2 : Text → Text
unfolding repair_fields
repair_line2 line2 = if leb td3_line_length (length line2) then repair_fields line2 else line2

unfoldable pub repair_mrz_chars : Text → Text → Text × Text
unfolding repair_line1 repair_line2
repair_mrz_chars line1 line2 = (repair_line1 line1, repair_line2 line2)

repair_tests :
    (repair_mrz_chars (text "P<1ND") [] ≡ (text "P<IND", []))
    × (repair_line2 (text "A12345678O1ND9OOI124M3OOI018ABCDEFGHIJKLMNSQ")
        ≡ text "A123456780IND9001124M3001018ABCDEFGHIJKLMN50")
unfolding repair_mrz_chars
repair_tests = (refl, refl)
