-- ===== src/Text.antt =====
-- Python's `str`, as the list of its code points, with the methods that the program calls.
pub mod Strip
pub mod Split
pub mod Lengths
pub mod Unicode
pub mod Chars
use Prim.Native.Char.{code}
use Prim.Native.String
use hawiya_ai.Prelude.{
  ℕ, zero, suc, ◌+◌, ◌-◌, ◌*◌, ◌/◌, ◌%◌, ◌≡◌, ◌↔◌, refl, String, Bool, true, false, ◌&&◌, Option,
  none, some, List, [], ◌∷◌, ◌++◌, map, arith, ltb, leb, ◌==◌, if◌then◌else◌, length, replicate,
  take, drop, ◌<◌, ==-refl, ==_iff,
}

abbrev pub Text : Type 0
Text = List ℕ

-- A literal of the source, as its code points.
abbrev pub text : String → Text
text String.[] = []
text (String.◌∷◌ c s) = code c ∷ text s

-- `s == t`.
unfoldable pub text_eq : Text → Text → Bool
text_eq [] [] = true
text_eq [] (_ ∷ _) = false
text_eq (_ ∷ _) [] = false
text_eq (a ∷ s) (b ∷ t) = (a == b) && text_eq s t

-- `s.startswith(p)`.
unfoldable pub starts_with : Text → Text → Bool
starts_with [] s = true
starts_with (_ ∷ _) [] = false
starts_with (a ∷ p) (b ∷ s) = (a == b) && starts_with p s

-- `s.translate(table)`, and `s.replace(a, b)` for single characters, through `replace_char`.
unfoldable pub translate_char : List (ℕ × ℕ) → ℕ → ℕ
translate_char [] c = c
translate_char ((a, b) ∷ table) c = if c == a then b else translate_char table c

unfoldable pub translate : List (ℕ × ℕ) → Text → Text
unfolding translate_char
translate table = map (translate_char table)

abbrev pub replace_char : ℕ → ℕ → ℕ → ℕ
replace_char a b c = if c == a then b else c

unfoldable pub replace : ℕ → ℕ → Text → Text
replace a b = map (replace_char a b)

-- `s.ljust(n, c)`.
unfoldable pub ljust : ℕ → ℕ → Text → Text
ljust n c s = s ++ replicate (n - length s) c

-- `s[i]`; a caller's index is in range.
abbrev pub char_at : ℕ → Text → ℕ
char_at i [] = 0
char_at zero (c ∷ s) = c
char_at (suc i) (c ∷ s) = char_at i s

-- `"0" <= c <= "9"` on a single character.
abbrev pub is_ascii_digit : ℕ → Bool
is_ascii_digit c = leb b'0' c && leb c b'9'

-- A number printed in `n` digits with leading zeros, `f"{k:0nd}"`, for k < 10 ** n.
unfoldable pub zero_padded : ℕ → ℕ → Text
zero_padded zero k = []
zero_padded (suc n) k = zero_padded n (k / 10) ++ (48 + k % 10) ∷ []

-- `str(k)` for 0 ≤ k < 10.
abbrev pub digit_char : ℕ → ℕ
digit_char k = 48 + k

-- `str(k)`, on fuel: `k` itself is enough, since each round divides it by ten.
unfoldable pub show_digits : ℕ → ℕ → Text
show_digits zero k = digit_char (k % 10) ∷ []
show_digits (suc fuel) k =
    let longer = show_digits fuel (k / 10) ++ digit_char (k % 10) ∷ [] in
    if ltb k 10 then digit_char k ∷ [] else longer

unfoldable pub show : ℕ → Text
show k = show_digits k k

-- What `int` reads from ASCII digits.
unfoldable pub read_digits : ℕ → Text → ℕ
read_digits n [] = n
read_digits n (c ∷ s) = read_digits (n * 10 + (c - 48)) s

pub text_eq_iff : (s t : Text) → (text_eq s t ≡ true) ↔ (s ≡ t)
unfolding text_eq
text_eq_iff [] [] = ground arith
text_eq_iff [] (b ∷ t) = ground arith
text_eq_iff (a ∷ s) [] = ground arith
text_eq_iff (a ∷ s) (b ∷ t) = ground (arith, text_eq_iff s t, ==_iff a b)

pub text_eq_refl : (s : Text) → text_eq s s ≡ true
text_eq_refl s = (text_eq_iff s s).1 refl

text_tests :
    (text_eq (text "ab") (text "ab") ≡ true)
    × (zero_padded 4 712 ≡ text "0712")
    × (read_digits 0 (text "0712") ≡ 712)
    × (ljust 4 b'<' (text "AB") ≡ text "AB<<")
unfolding text_eq zero_padded read_digits ljust
text_tests = (refl, refl, refl, refl)

-- A slice of one character.
pub slice_one : (i : ℕ) (s : Text) → i < length s → take 1 (drop i s) ≡ char_at i s ∷ []
slice_one zero [] h = absurd (omega arith)
slice_one zero (c ∷ s) h = refl
slice_one (suc i) [] h = absurd (omega arith)
slice_one (suc i) (c ∷ s) h = slice_one i s (omega arith)
