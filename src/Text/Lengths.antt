-- ===== src/Text/Lengths.antt =====
-- How long the texts are that the operations on names give.
use hawiya_ai.Prelude.{
  ℕ, ◌+◌, ◌≤◌, ◌≡◌, Bool, true, false, List, [], ◌∷◌, ◌++◌, arith, length, length-append,
  length-map, filter, is_empty, if◌then◌else◌,
}
use hawiya_ai.Text.{Text, text, translate}
use hawiya_ai.Text.Strip.{is_space, strip, lstrip_if, rstrip_if}
use hawiya_ai.Text.Split.{words_from, join}

pub length-filter-le : (p : ℕ → Bool) (s : Text) → length (filter p s) ≤ length s
length-filter-le p [] = omega arith
length-filter-le p (c ∷ s) = ground (arith, length-filter-le p s)

pub length-translate : (table : List (ℕ × ℕ)) (s : Text) → length (translate table s) ≡ length s
unfolding translate
length-translate table s = length-map _ s

length-lstrip_if : (p : ℕ → Bool) (s : Text) → length (lstrip_if p s) ≤ length s
unfolding lstrip_if
length-lstrip_if p [] = omega arith
length-lstrip_if p (c ∷ s) = ground (arith, length-lstrip_if p s)

length-rstrip_if : (p : ℕ → Bool) (s : Text) → length (rstrip_if p s) ≤ length s
unfolding rstrip_if
length-rstrip_if p [] = omega arith
length-rstrip_if p (c ∷ s) = ground (arith, length-rstrip_if p s)

pub length-strip : (s : Text) → length (strip s) ≤ length s
unfolding strip
length-strip s =
    omega (arith, length-rstrip_if is_space (lstrip_if is_space s), length-lstrip_if is_space s)

join-cons :
    (w : Text) (ws : List Text)
    → length (join (text " ") (w ∷ ws)) ≤ length w + 1 + length (join (text " ") ws)
unfolding join
join-cons w [] = omega arith
join-cons w (v ∷ ws) =
    omega
      (arith, length-append (w ++ text " ") (join (text " ") (v ∷ ws)), length-append w (text " "))

abbrev joined : Text → Text → Text
joined word s = join (text " ") (words_from word s)

-- Splitting at white space and joining by single spaces makes a text no longer.
pub length-joined-le : (word s : Text) → length (joined word s) ≤ length word + length s
unfolding words_from join
length-joined-le word [] = last (is_empty word)
  where
    last : (b : Bool) → length (join (text " ") (if b then [] else word ∷ [])) ≤ length word + 0
    last true = omega arith
    last false = omega arith
length-joined-le word (c ∷ s) =
    step (is_space c) (is_empty word) (length-joined-le [] s) (length-joined-le (word ++ c ∷ []) s)
  where
    step :
        (space blank : Bool)
        → length (joined [] s) ≤ 0 + length s
        → length (joined (word ++ c ∷ []) s) ≤ length (word ++ c ∷ []) + length s
        → length (
            join (text " ") (
              if space
              then (if blank then words_from [] s else word ∷ words_from [] s)
              else words_from (word ++ c ∷ []) s))
          ≤ length word + length (c ∷ s)
    step true true h k = omega (arith, h)
    step true false h k = omega (arith, h, join-cons word (words_from [] s))
    step false blank h k = omega (arith, k, length-append word (c ∷ []))
