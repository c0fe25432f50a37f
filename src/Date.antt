-- ===== src/Date.antt =====
-- `datetime.date`, as far as the program uses it: construction, `isoformat` and `fromisoformat`.
use hawiya_ai.Prelude.{
  ℕ, ◌+◌, ◌-◌, ◌*◌, ◌/◌, ◌%◌, ◌≤◌, ◌≡◌, Bool, true, ◌&&◌, ◌||◌, not, Option, none, some, ◌∷◌, ◌++◌,
  arith, leb, ◌==◌, if◌then◌else◌, length, slice, all,
}
use hawiya_ai.Text.{Text, char_at, is_ascii_digit, zero_padded, read_digits}

pub record Date : Type 0 where
  pub year : ℕ
  pub month : ℕ
  pub day : ℕ

unfoldable pub is_leap : ℕ → Bool
is_leap y = (y % 4 == 0) && (not (y % 100 == 0) || (y % 400 == 0))

unfoldable pub days_in_month : ℕ → ℕ → ℕ
unfolding is_leap
days_in_month y m =
    if m == 2
    then (if is_leap y then 29 else 28)
    else if (m == 4) || (m == 6) || (m == 9) || (m == 11)
    then 30
    else 31

abbrev pub is_calendar_day : ℕ → ℕ → ℕ → Bool
is_calendar_day y m d =
    leb 1 y && leb y 9999 && leb 1 m && leb m 12 && leb 1 d && leb d (days_in_month y m)

-- `date(y, m, d)`; `none` is its `ValueError`.
unfoldable pub date : ℕ → ℕ → ℕ → Option Date
date y m d = if is_calendar_day y m d then some (record { year = y; month = m; day = d }) else none

-- `a == b`.
unfoldable pub date_eq : Date → Date → Bool
date_eq a b = (a.year == b.year) && (a.month == b.month) && (a.day == b.day)

unfoldable pub isoformat : Date → Text
isoformat d =
    zero_padded 4 d.year ++ (b'-' ∷ (zero_padded 2 d.month ++ (b'-' ∷ zero_padded 2 d.day)))

-- `date.fromisoformat(s)` on the shape `YYYY-MM-DD`, the one that `isoformat` writes. The week
-- and the undashed shapes of ISO 8601 do not occur in the program and are left out.
unfoldable pub fromisoformat : Text → Option Date
unfolding date
fromisoformat s =
    if (length s == 10)
      && (char_at 4 s == b'-')
      && (char_at 7 s == b'-')
      && all is_ascii_digit (slice 0 4 s)
      && all is_ascii_digit (slice 5 7 s)
      && all is_ascii_digit (slice 8 10 s)
    then date (read_digits 0 (slice 0 4 s)) (read_digits 0 (slice 5 7 s))
        (read_digits 0 (slice 8 10 s))
    else none

-- A date that `date` can construct.
abbrev pub IsDate : Date → Type 0
IsDate d = date d.year d.month d.day ≡ some d

pub date-IsDate : (y m d : ℕ) (t : Date) → date y m d ≡ some t → IsDate t
unfolding date
date-IsDate y m d t h = ground arith

pub IsDate-bounds : (d : Date) → IsDate d → (d.year ≤ 9999) × (d.month ≤ 12) × (d.day ≤ 31)
unfolding date days_in_month is_leap
IsDate-bounds d h = ground arith

printed_digit : (k : ℕ) → is_ascii_digit (48 + k % 10) ≡ true
printed_digit k = ground arith

read_two : (k : ℕ) → k ≤ 99 → (0 + (48 + k / 10 % 10 - 48)) * 10 + (48 + k % 10 - 48) ≡ k
read_two k h = omega arith

read_four :
    (k : ℕ)
    → k ≤ 9999
    → (((0 + (48 + k / 10 / 10 / 10 % 10 - 48)) * 10 + (48 + k / 10 / 10 % 10 - 48)) * 10
            + (48 + k / 10 % 10 - 48))
          * 10
        + (48 + k % 10 - 48)
      ≡ k
read_four k h = omega arith

-- Reading back a printed date.
pub fromisoformat-isoformat : (d : Date) → IsDate d → fromisoformat (isoformat d) ≡ some d
unfolding fromisoformat isoformat zero_padded read_digits
fromisoformat-isoformat d h =
    let (y, m, n) = IsDate-bounds d h in
    simp printed_digit
      (rw (read_four d.year y, read_two d.month (omega arith), read_two d.day (omega arith)) h)

pub date_eq_refl : (d : Date) → date_eq d d ≡ true
unfolding date_eq
date_eq_refl d = ground arith

pub date_eq→eq : (a b : Date) → date_eq a b ≡ true → a ≡ b
unfolding date_eq
date_eq→eq a b h = ground arith
