-- ===== src/Matching/Phonetic/Keys.antt =====
-- What a phonetic key of src/hawiya/matching/arabic_names.py looks like.
use hawiya_ai.Prelude.{
  ℕ, zero, suc, ◌≤◌, ◌≡◌, refl, Bool, true, false, ◌&&◌, Option, none, some, List, [], ◌∷◌, arith,
  map, take, leb, all, length, length-take, and-true, and_intro, if◌then◌else◌, is_empty, not,
}
use hawiya_ai.Text.{Text}
use hawiya_ai.Text.Strip.{strip}
use hawiya_ai.Text.Unicode.{Unicode}
use hawiya_ai.Matching.ArabicNames.{is_arabic_script}
use hawiya_ai.Matching.Phonetic.{
  member, code_of, ar_phonetic_map, latin_phonetic_map, phonetic_key_length, repeats, compress_from,
  compress, arabic_phonetic, latin_phonetic, phonetic_key,
}

abbrev pub is_capital : ℕ → Bool
is_capital c = leb b'A' c && leb c b'Z'

-- Capital letters, none of which repeats the one before it.
unfoldable pub is_key_after : Option ℕ → Text → Bool
is_key_after last [] = true
is_key_after last (c ∷ s) = (is_capital c && not (repeats c last)) && is_key_after (some c) s

abbrev is_code : Option ℕ → Bool
is_code none = true
is_code (some c) = is_capital c

abbrev has_codes : List (Text × Option ℕ) → Bool
has_codes table = all (λ row. is_code row.1) table

code_of-is_code :
    (table : List (Text × Option ℕ)) (ch : ℕ)
    → has_codes table ≡ true
    → is_code (code_of table ch) ≡ true
unfolding code_of
code_of-is_code [] ch h = refl
code_of-is_code ((letters, code) ∷ table) ch h =
    let (head, rest) = and-true (is_code code) (has_codes table) h in
    step (member ch letters) head (code_of-is_code table ch rest)
  where
    step :
        (b : Bool)
        → is_code code ≡ true
        → is_code (code_of table ch) ≡ true
        → is_code (if b then code else code_of table ch) ≡ true
    step true head rest = head
    step false head rest = rest

map-is_code :
    (table : List (Text × Option ℕ)) (s : Text)
    → has_codes table ≡ true
    → all is_code (map (code_of table) s) ≡ true
map-is_code table [] h = refl
map-is_code table (c ∷ s) h = and_intro _ _ (code_of-is_code table c h) (map-is_code table s h)

compress_from-is_key :
    (last : Option ℕ) (codes : List (Option ℕ))
    → all is_code codes ≡ true
    → is_key_after last (compress_from last codes) ≡ true
unfolding compress_from is_key_after
compress_from-is_key last [] h = refl
compress_from-is_key last (none ∷ codes) h = compress_from-is_key last codes h
compress_from-is_key last (some c ∷ codes) h =
    let (head, rest) = and-true (is_capital c) (all is_code codes) h in
    step (repeats c last) refl head (compress_from-is_key last codes rest)
      (compress_from-is_key (some c) codes rest)
  where
    step :
        (b : Bool)
        → repeats c last ≡ b
        → is_capital c ≡ true
        → is_key_after last (compress_from last codes) ≡ true
        → is_key_after (some c) (compress_from (some c) codes) ≡ true
        → is_key_after last
            (if b then compress_from last codes else (c ∷ compress_from (some c) codes))
          ≡ true
    step true e head skipped kept = skipped
    step false e head skipped kept = rw (head, e, kept) refl

take-is_key :
    (n : ℕ) (last : Option ℕ) (s : Text)
    → is_key_after last s ≡ true
    → is_key_after last (take n s) ≡ true
unfolding is_key_after
take-is_key zero last s h = refl
take-is_key (suc n) last [] h = refl
take-is_key (suc n) last (c ∷ s) h =
    let (head, rest) =
      and-true (is_capital c && not (repeats c last)) (is_key_after (some c) s) h in
    and_intro _ _ head (take-is_key n (some c) s rest)

-- At most six letters, all of them capitals, and no two neighbours equal.
abbrev pub IsKey : Text → Type 0
IsKey s = (is_key_after none s ≡ true) × (length s ≤ phonetic_key_length)

cut-IsKey :
    (table : List (Text × Option ℕ)) (s : Text)
    → has_codes table ≡ true
    → IsKey (take phonetic_key_length (compress (map (code_of table) s)))
unfolding compress
cut-IsKey table s h =
    let codes : List (Option ℕ) = map (code_of table) s in
    (
      take-is_key 6 none _ (compress_from-is_key none codes (map-is_code table s h)),
      omega (arith, length-take 6 (compress_from none codes)),
    )

-- Whatever the name, its phonetic key has at most six letters, all of them from A to Z, and no letter
-- stands twice in a row.
pub phonetic_key-IsKey : (u : Unicode) (name : Text) → IsKey (phonetic_key u name)
unfolding phonetic_key arabic_phonetic latin_phonetic is_key_after
phonetic_key-IsKey u name = step (is_empty (strip name)) (is_arabic_script name)
  where
    step :
        (blank arabic : Bool)
        → IsKey (
            if blank
            then []
            else (if arabic then arabic_phonetic u name else latin_phonetic u name))
    step true arabic = (refl, omega arith)
    step false true = cut-IsKey ar_phonetic_map _ refl
    step false false = cut-IsKey latin_phonetic_map _ refl
