-- ===== src/Text/Unicode.antt =====
-- The tables of the Unicode database that Python's `str` methods and `unicodedata` read. They are
-- parameters; what the program relies on is their documented behaviour on ASCII.
use hawiya_ai.Prelude.{
  ℕ, ◌-◌, ◌<◌, ◌≡◌, Bool, false, ◌&&◌, ◌||◌, Option, none, some, List, [], ◌∷◌, ◌++◌, leb, is_some,
  if◌then◌else◌, is_empty, all, not,
}

pub record Unicode : Type 0 where
  -- the value of a decimal digit of any script, which `int` reads
  pub decimal : ℕ → Option ℕ
  -- a digit that is not decimal, such as a superscript: `isdigit` holds of it and `int` raises
  pub other_digit : ℕ → Bool
  -- `str.upper` and `str.casefold` of one character
  pub upper : ℕ → List ℕ
  pub casefold : ℕ → List ℕ
  -- `str.isalpha` of one character
  pub is_alpha : ℕ → Bool
  -- `unicodedata.normalize("NFC", s)`
  pub nfc : List ℕ → List ℕ
  pub decimal_ascii :
      (c : ℕ) → c < 128 → decimal c ≡ (if leb 48 c && leb c 57 then some (c - 48) else none)
  pub other_digit_ascii : (c : ℕ) → c < 128 → other_digit c ≡ false
  pub upper_kept : (c : ℕ) → c < 97 → upper c ≡ c ∷ []

-- `c.isdigit()` for one character.
unfoldable pub is_digit : Unicode → ℕ → Bool
is_digit u c = is_some (u.decimal c) || u.other_digit c

-- `s.isdigit()`: false of the empty text.
unfoldable pub all_digits : Unicode → List ℕ → Bool
unfolding is_digit
all_digits u s = not (is_empty s) && all (is_digit u) s

-- `s.upper()`.
unfoldable pub to_upper : Unicode → List ℕ → List ℕ
to_upper u [] = []
to_upper u (c ∷ s) = u.upper c ++ to_upper u s
