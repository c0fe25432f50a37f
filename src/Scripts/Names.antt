-- ===== src/Scripts/Names.antt =====
-- Names through the name field of a TD3 line 1: `_name_field` of scripts/generate_passport_image.py and
-- `_parse_name` of src/hawiya/extractors/mrz.py.
use mathlib.Core.List.{map-append, append-nil, append_assoc}
use hawiya_ai.Prelude.{
  ℕ, zero, suc, ◌≡◌, refl, sym, ◌∙◌, ap, ap₂, Bool, true, false, ◌&&◌, ◌||◌, some, [], ◌∷◌, ◌++◌,
  arith, ◌==◌, replicate, and-true,
}
use hawiya_ai.Text.{Text, replace, replace_char}
use hawiya_ai.Text.Strip.{is_space, rstrip_if, strip, strip_kept, strip-replicate}
use hawiya_ai.Text.Split.{split_double}
use hawiya_ai.Text.Unicode.{Unicode, to_upper}
use hawiya_ai.Extractors.Validators.{filler, is_upper}
use hawiya_ai.Extractors.Mrz.{parse_name, clean_name}

-- Capital letters in words, with one space between two words.
abbrev is_words : Text → Bool
is_words [] = true
is_words (c ∷ []) = is_upper c
is_words (c ∷ d ∷ s) = (is_upper c || ((c == b' ') && is_upper d)) && is_words (d ∷ s)

abbrev begins_upper : Text → Bool
begins_upper [] = true
begins_upper (c ∷ s) = is_upper c

abbrev pub IsName : Text → Type 0
IsName s = (is_words s ≡ true) × (begins_upper s ≡ true)

pub to_upper_words : (u : Unicode) (s : Text) → is_words s ≡ true → to_upper u s ≡ s
unfolding to_upper
to_upper_words u [] h = refl
to_upper_words u (c ∷ []) h = rw (u.upper_kept c (ground arith))
to_upper_words u (c ∷ d ∷ s) h =
    rw (u.upper_kept c (ground arith), to_upper_words u (d ∷ s) (and-true _ (is_words (d ∷ s)) h).1)

words_tail :
    (c d : ℕ) (s : Text)
    → is_words (c ∷ d ∷ s) ≡ true
    → ((is_upper c || ((c == b' ') && is_upper d)) ≡ true) × (is_words (d ∷ s) ≡ true)
words_tail c d s h = and-true _ (is_words (d ∷ s)) h

-- Inside the words no two fillers meet.
no_double :
    (c d : ℕ)
    → (is_upper c || ((c == b' ') && is_upper d)) ≡ true
    → ((replace_char b' ' filler c == filler) && (replace_char b' ' filler d == filler)) ≡ false
no_double c d h = ground arith

char_back :
    (c d : ℕ)
    → (is_upper c || ((c == b' ') && is_upper d)) ≡ true
    → replace_char filler b' ' (replace_char b' ' filler c) ≡ c
char_back c d h = ground arith

split_words :
    (s t : Text)
    → is_words s ≡ true
    → split_double filler (replace b' ' filler s ++ filler ∷ filler ∷ t)
      ≡ (replace b' ' filler s, some t)
unfolding split_double replace
split_words [] t h = refl
split_words (c ∷ []) t h = ground arith
split_words (c ∷ d ∷ s) t h =
    let (hc, hs) = words_tail c d s h in rw (no_double c d hc, split_words (d ∷ s) t hs)

replace-append : (a b : ℕ) (s t : Text) → replace a b (s ++ t) ≡ replace a b s ++ replace a b t
unfolding replace
replace-append a b s t = map-append (replace_char a b) s t

replace_back : (s : Text) → is_words s ≡ true → replace filler b' ' (replace b' ' filler s) ≡ s
unfolding replace
replace_back [] h = refl
replace_back (c ∷ []) h = ground arith
replace_back (c ∷ d ∷ s) h =
    let (hc, hs) = words_tail c d s h in
    ap₂ (λ x xs. x ∷ xs) (char_back c d hc) (replace_back (d ∷ s) hs)

rstrip_words : (s : Text) → is_words s ≡ true → rstrip_if is_space s ≡ s
unfolding rstrip_if is_space
rstrip_words [] h = refl
rstrip_words (c ∷ []) h = ground arith
rstrip_words (c ∷ d ∷ s) h = rw (rstrip_words (d ∷ s) (words_tail c d s h).1)

upper-is_space : (c : ℕ) → is_upper c ≡ true → is_space c ≡ false
unfolding is_space
upper-is_space c h = ground arith

strip_name : (s : Text) (n : ℕ) → IsName s → strip (s ++ replicate n b' ') ≡ s
strip_name [] n h = strip-replicate n
strip_name (c ∷ s) n h = strip_kept c s n (upper-is_space c h.1) (rstrip_words (c ∷ s) h.0)

strip_name_alone : (s : Text) → IsName s → strip s ≡ s
strip_name_alone s h = ap strip (sym (append-nil s)) ∙ strip_name s 0 h

replace-replicate : (n : ℕ) → replace filler b' ' (replicate n filler) ≡ replicate n b' '
unfolding replace
replace-replicate zero = refl
replace-replicate (suc n) = ap (λ s. b' ' ∷ s) (replace-replicate n)

clean_padded :
    (s : Text) (n : ℕ) → IsName s → clean_name (replace b' ' filler s ++ replicate n filler) ≡ s
clean_padded s n h =
    ap strip (
      replace-append filler b' ' (replace b' ' filler s) (replicate n filler)
      ∙ ap₂ ◌++◌ (replace_back s h.0) (replace-replicate n))
    ∙ strip_name s n h

-- The name field gives both names back, whatever the padding.
pub parse_name_field :
    (surname given : Text) (n : ℕ)
    → IsName surname
    → IsName given
    → parse_name (
        (replace b' ' filler surname ++ (filler ∷ filler ∷ replace b' ' filler given))
        ++ replicate n filler)
      ≡ (surname, given)
unfolding parse_name
parse_name_field surname given n h k =
    rw (append_assoc, split_words surname (replace b' ' filler given ++ replicate n filler) h.0)
      (ap₂ (λ a b. (a, b)) (ap strip (replace_back surname h.0) ∙ strip_name_alone surname h)
        (clean_padded given n k))
