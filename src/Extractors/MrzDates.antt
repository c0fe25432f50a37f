-- ===== src/Extractors/MrzDates.antt =====
-- The dates of src/hawiya/extractors/mrz.py on fields of the alphabet: six ASCII digits make a date
-- or no date, and nothing depends on the Unicode tables.
use hawiya_ai.Prelude.{
  ℕ, zero, suc, ◌≤◌, ◌+◌, ◌-◌, ◌*◌, ◌<◌, ◌≡◌, inl, inr, refl, Bool, true, false, Option, none, some,
  [], ◌∷◌, arith, if◌then◌else◌, ok, all, length, slice, take, drop, length-take, length-drop,
  Bool-cases, is_empty, and-true,
}
use hawiya_ai.Text.{Text, is_ascii_digit, read_digits}
use hawiya_ai.Text.Unicode.{Unicode, is_digit, all_digits}
use hawiya_ai.Date.{Date, date}
use hawiya_ai.Extractors.CheckDigit.{is_mrz_char}
use hawiya_ai.Extractors.Mrz.{int, int_from, parse_date}

-- On characters of the alphabet a date field never raises: the date is read where all six
-- characters are digits.
unfoldable pub dated : (ℕ → ℕ) → Text → Option Date
dated century raw =
    if all is_ascii_digit raw
    then (let yy = read_digits 0 (slice 0 2 raw) in
        date (century yy + yy) (read_digits 0 (slice 2 4 raw)) (read_digits 0 (slice 4 6 raw)))
    else none

-- An ASCII digit is a decimal digit of its own value, and no other character of the alphabet is one.
decimal_of_mrz :
    (u : Unicode) (c : ℕ)
    → is_mrz_char c ≡ true
    → u.decimal c ≡ (if is_ascii_digit c then some (c - 48) else none)
decimal_of_mrz u c h = u.decimal_ascii c (ground arith)

is_digit_of_mrz : (u : Unicode) (c : ℕ) → is_mrz_char c ≡ true → is_digit u c ≡ is_ascii_digit c
unfolding is_digit
is_digit_of_mrz u c h =
    rw (decimal_of_mrz u c h, u.other_digit_ascii c (ground arith)) (ground arith)

all-is_digit_of_mrz :
    (u : Unicode) (s : Text) → all is_mrz_char s ≡ true → all (is_digit u) s ≡ all is_ascii_digit s
all-is_digit_of_mrz u [] h = refl
all-is_digit_of_mrz u (c ∷ s) h =
    let (k, l) = and-true (is_mrz_char c) (all is_mrz_char s) h in
    rw (is_digit_of_mrz u c k, all-is_digit_of_mrz u s l)

int_from_of_digits :
    (u : Unicode) (n : ℕ) (s : Text)
    → all is_ascii_digit s ≡ true
    → int_from u n s ≡ ok (read_digits n s)
unfolding int_from read_digits
int_from_of_digits u n [] h = refl
int_from_of_digits u n (c ∷ s) h =
    let (k, l) = and-true (is_ascii_digit c) (all is_ascii_digit s) h in
    rw (decimal_of_mrz u c (ground arith), k) (int_from_of_digits u (n * 10 + (c - 48)) s l)

all-take : (p : ℕ → Bool) (n : ℕ) (s : Text) → all p s ≡ true → all p (take n s) ≡ true
all-take p zero s h = refl
all-take p (suc n) [] h = refl
all-take p (suc n) (c ∷ s) h = ground (arith, all-take p n s)

all-drop : (p : ℕ → Bool) (n : ℕ) (s : Text) → all p s ≡ true → all p (drop n s) ≡ true
all-drop p zero s h = h
all-drop p (suc n) [] h = refl
all-drop p (suc n) (c ∷ s) h = all-drop p n s (and-true (p c) (all p s) h).1

is_empty_of_length : (s : Text) → 0 < length s → is_empty s ≡ false
is_empty_of_length [] h = absurd (omega arith)
is_empty_of_length (c ∷ s) h = refl

int_of_digits :
    (u : Unicode) (s : Text)
    → is_empty s ≡ false
    → all is_ascii_digit s ≡ true
    → int u s ≡ ok (read_digits 0 s)
unfolding int
int_of_digits u [] h d = cc
int_of_digits u (c ∷ s) h d = int_from_of_digits u 0 (c ∷ s) d

-- The slice of two digits at `i` of a text of six.
int_of_slice :
    (u : Unicode) (i : ℕ) (s : Text)
    → i + 2 ≤ length s
    → all is_ascii_digit s ≡ true
    → int u (take 2 (drop i s)) ≡ ok (read_digits 0 (take 2 (drop i s)))
int_of_slice u i s h d =
    int_of_digits u (take 2 (drop i s))
      (is_empty_of_length _ (omega (arith, length-take 2 (drop i s), length-drop i s)))
      (all-take is_ascii_digit 2 (drop i s) (all-drop is_ascii_digit i s d))

pub parse_date_of_mrz :
    (u : Unicode) (century : ℕ → ℕ) (raw : Text)
    → length raw ≡ 6
    → all is_mrz_char raw ≡ true
    → parse_date u century raw ≡ ok (dated century raw)
unfolding parse_date dated all_digits
parse_date_of_mrz u century raw h m = elim (Bool-cases (all is_ascii_digit raw)) [
  | inl d ↦ rw (
    is_empty_of_length raw (omega arith),
    all-is_digit_of_mrz u raw m,
    d,
    int_of_slice u 0 raw (omega arith) d,
    int_of_slice u 2 raw (omega arith) d,
    int_of_slice u 4 raw (omega arith) d,
  )
  | inr d ↦ rw (is_empty_of_length raw (omega arith), all-is_digit_of_mrz u raw m, d)
]
