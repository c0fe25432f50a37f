-- ===== src/Matching/ArabicNames.antt =====
-- src/hawiya/matching/arabic_names.py: normal forms of names and phonetic keys.
use hawiya_ai.Prelude.{
  ℕ, ◌-◌, Bool, false, not, ◌&&◌, ◌||◌, Option, none, some, List, [], ◌∷◌, ◌++◌, ltb, leb, ◌==◌,
  if◌then◌else◌, length, filter, drop,
}
use hawiya_ai.Text.{Text, text, text_eq, starts_with, translate}
use hawiya_ai.Text.Strip.{is_space, strip, lstrip_if}
use hawiya_ai.Text.Split.{words_from, join}
use hawiya_ai.Text.Unicode.{Unicode}

-- `_DIACRITIC_RE`.
abbrev pub is_diacritic : ℕ → Bool
is_diacritic c = (leb 0x64b c && leb c 0x65f) || (c == 0x670) || (leb 0x6d6 c && leb c 0x6ed)

abbrev pub alef_trans : List (ℕ × ℕ)
alef_trans = (0x623, 0x627) ∷ (0x625, 0x627) ∷ (0x622, 0x627) ∷ (0x671, 0x627) ∷ []

abbrev pub yaa_trans : List (ℕ × ℕ)
yaa_trans = (0x649, 0x64a) ∷ (0x626, 0x64a) ∷ []

abbrev pub hamza_trans : List (ℕ × ℕ)
hamza_trans = (0x624, 0x648) ∷ []

abbrev pub taa_marbuta_trans : List (ℕ × ℕ)
taa_marbuta_trans = (0x629, 0x647) ∷ []

unfoldable pub strip_diacritics : Text → Text
strip_diacritics = filter (λ c. not (is_diacritic c))

unfoldable pub normalize_alef : Text → Text
normalize_alef = translate alef_trans

unfoldable pub normalize_yaa : Text → Text
normalize_yaa = translate yaa_trans

unfoldable pub normalize_hamza : Text → Text
normalize_hamza = translate hamza_trans

unfoldable pub normalize_taa_marbuta : Text → Text
normalize_taa_marbuta = translate taa_marbuta_trans

-- `to_canonical`, and the part of it that follows the composition to NFC.
unfoldable pub fold_letters : Text → Text
fold_letters out = normalize_hamza (normalize_yaa (normalize_alef (strip_diacritics out)))

unfoldable pub to_canonical : Unicode → Text → Text
to_canonical u [] = []
to_canonical u (c ∷ name) = join (text " ") (words_from [] (fold_letters (u.nfc (c ∷ name))))

unfoldable pub casefold : Unicode → Text → Text
casefold u [] = []
casefold u (c ∷ s) = u.casefold c ++ casefold u s

unfoldable pub to_matching_form : Unicode → Text → Text
to_matching_form u [] = []
to_matching_form u (c ∷ name) = casefold u (normalize_taa_marbuta (to_canonical u (c ∷ name)))

-- `_ARABIC_RANGE.search`.
unfoldable pub is_arabic_script : Text → Bool
is_arabic_script [] = false
is_arabic_script (c ∷ s) = (leb 0x600 c && leb c 0x6ff) || is_arabic_script s

-- A letter of a pattern under `re.IGNORECASE`, which also takes the two dotted and dotless forms of i.
abbrev pub same_letter : ℕ → ℕ → Bool
same_letter p c = (c == p) || (c == p - 32) || ((p == b'i') && ((c == 0x130) || (c == 0x131)))

-- The rest of `s` behind the letters `p`, if `s` begins with them in any case.
unfoldable pub after_letters : Text → Text → Option Text
after_letters [] s = some s
after_letters (p ∷ ps) [] = none
after_letters (p ∷ ps) (c ∷ s) = if same_letter p c then after_letters ps s else none

abbrev is_separator : ℕ → Bool
is_separator c = (c == b'-') || is_space c

-- `[-\s]+`, and `\s+`: the rest behind at least one character that `p` accepts.
unfoldable pub after_some : (ℕ → Bool) → Option Text → Option Text
after_some p none = none
after_some p (some []) = none
after_some p (some (c ∷ s)) = if p c then some (lstrip_if p s) else none

abbrev then_letters : Text → Option Text → Option Text
then_letters p none = none
then_letters p (some s) = after_letters p s

-- The alternatives of `_LATIN_PREFIX_RE`, each with the separator that must follow it.
abbrev latin_alternatives : Text → List (Option Text)
latin_alternatives s =
    after_letters (text "al") s
    ∷ after_letters (text "el") s
    ∷ after_letters (text "bin") s
    ∷ after_letters (text "bint") s
    ∷ after_letters (text "ibn") s
    ∷ after_letters (text "abdul") s
    ∷ then_letters (text "al") (after_some is_space (after_letters (text "abd") s))
    ∷ then_letters (text "el") (after_some is_space (after_letters (text "abd") s))
    ∷ []

unfoldable pub first_match : List (Option Text) → Text → Text
first_match [] s = s
first_match (alternative ∷ more) s = elim (after_some is_separator alternative) [
  | some rest ↦ rest
  | none ↦ first_match more s
]

-- `_LATIN_PREFIX_RE.sub("", name)`.
unfoldable pub drop_latin_prefix : Text → Text
drop_latin_prefix name = first_match (latin_alternatives name) name

abbrev arabic_prefix : Text
arabic_prefix = 0x627 ∷ 0x644 ∷ []

unfoldable pub strip_prefixes : Text → Text
strip_prefixes [] = []
strip_prefixes (c ∷ name) =
    let stripped = strip (drop_latin_prefix (c ∷ name)) in
    if not (text_eq stripped (c ∷ name))
    then stripped
    else if starts_with arabic_prefix stripped && ltb (length arabic_prefix) (length stripped)
    then drop (length arabic_prefix) stripped
    else stripped
