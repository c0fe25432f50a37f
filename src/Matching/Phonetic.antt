-- ===== src/Matching/Phonetic.antt =====
-- The phonetic keys of src/hawiya/matching/arabic_names.py. A code is `some` letter, or `none` for the
-- empty code of a vowel.
pub mod Keys
use hawiya_ai.Prelude.{
  ℕ, Bool, false, not, ◌||◌, Option, none, some, List, [], ◌∷◌, map, ◌==◌, if◌then◌else◌, is_empty,
  filter, take,
}
use hawiya_ai.Text.{Text, text}
use hawiya_ai.Text.Strip.{is_space, strip}
use hawiya_ai.Text.Unicode.{Unicode, to_upper}
use hawiya_ai.Matching.ArabicNames.{is_arabic_script, strip_prefixes, to_matching_form}

abbrev pub member : ℕ → Text → Bool
member c [] = false
member c (a ∷ s) = (c == a) || member c s

-- A table of letters with their codes; `table.get(ch, "")`.
unfoldable pub code_of : List (Text × Option ℕ) → ℕ → Option ℕ
code_of [] ch = none
code_of ((letters, code) ∷ table) ch = if member ch letters then code else code_of table ch

abbrev pub ar_phonetic_map : List (Text × Option ℕ)
ar_phonetic_map =
    (0x628 ∷ [], some b'B')
    ∷ (0x641 ∷ 0x648 ∷ [], some b'F')
    ∷ (0x62f ∷ 0x62a ∷ 0x637 ∷ 0x636 ∷ [], some b'T')
    ∷ (0x633 ∷ 0x635 ∷ 0x62b ∷ 0x634 ∷ [], some b'S')
    ∷ (0x632 ∷ 0x630 ∷ 0x638 ∷ [], some b'Z')
    ∷ (0x62c ∷ [], some b'J')
    ∷ (0x62d ∷ 0x647 ∷ 0x62e ∷ [], some b'H')
    ∷ (0x639 ∷ 0x63a ∷ 0x621 ∷ [], some b'A')
    ∷ (0x643 ∷ 0x642 ∷ [], some b'K')
    ∷ (0x644 ∷ [], some b'L')
    ∷ (0x645 ∷ [], some b'M')
    ∷ (0x646 ∷ [], some b'N')
    ∷ (0x631 ∷ [], some b'R')
    ∷ (0x64a ∷ 0x627 ∷ [], none)
    ∷ []

abbrev pub latin_phonetic_map : List (Text × Option ℕ)
latin_phonetic_map =
    (text "BPV", some b'B')
    ∷ (text "F", some b'F')
    ∷ (text "CGJKQX", some b'K')
    ∷ (text "S", some b'S')
    ∷ (text "Z", some b'Z')
    ∷ (text "DT", some b'T')
    ∷ (text "L", some b'L')
    ∷ (text "MN", some b'N')
    ∷ (text "R", some b'R')
    ∷ (text "HW", none)
    ∷ (text "AEIOUY", none)
    ∷ []

abbrev pub phonetic_key_length : ℕ
phonetic_key_length = 6

-- The loop of `_compress`, where `last` is the end of `out`.
abbrev pub repeats : ℕ → Option ℕ → Bool
repeats c none = false
repeats c (some d) = d == c

unfoldable pub compress_from : Option ℕ → List (Option ℕ) → Text
compress_from last [] = []
compress_from last (none ∷ codes) = compress_from last codes
compress_from last (some c ∷ codes) =
    let skipped = compress_from last codes in
    let kept = c ∷ compress_from (some c) codes in if repeats c last then skipped else kept

unfoldable pub compress : List (Option ℕ) → Text
compress codes = compress_from none codes

unfoldable pub arabic_phonetic : Unicode → Text → Text
arabic_phonetic u name =
    let body = strip_prefixes (to_matching_form u name) in
    take phonetic_key_length
      (compress (map (code_of ar_phonetic_map) (filter (λ ch. not (is_space ch)) body)))

unfoldable pub latin_phonetic : Unicode → Text → Text
latin_phonetic u name =
    let body = to_upper u (strip_prefixes name) in
    take phonetic_key_length (compress (map (code_of latin_phonetic_map) (filter u.is_alpha body)))

unfoldable pub phonetic_key : Unicode → Text → Text
phonetic_key u name =
    if is_empty (strip name)
    then []
    else if is_arabic_script name
    then arabic_phonetic u name
    else latin_phonetic u name
