-- ===== src/Text/Split.antt =====
-- `str.split(sep, 1)`, and `" ".join(s.split())`.
use hawiya_ai.Prelude.{
  ℕ, ◌≡◌, refl, ◌&&◌, Option, none, some, List, [], ◌∷◌, ◌++◌, ◌==◌, if◌then◌else◌, is_empty,
}
use hawiya_ai.Text.Strip.{is_space}

abbrev cons_head : ℕ → List ℕ × Option (List ℕ) → List ℕ × Option (List ℕ)
cons_head c (head, tail) = (c ∷ head, tail)

-- `s.split("aa", 1)` for a separator of one character doubled: what stands before the first
-- occurrence, and what stands after it if there is one.
unfoldable pub split_double : ℕ → List ℕ → List ℕ × Option (List ℕ)
split_double a [] = ([], none)
split_double a (c ∷ []) = (c ∷ [], none)
split_double a (c ∷ d ∷ s) =
    let later = cons_head c (split_double a (d ∷ s)) in
    if (c == a) && (d == a) then ([], some s) else later

-- The words of `s.split()`: `word` holds the characters of the current word.
unfoldable pub words_from : List ℕ → List ℕ → List (List ℕ)
unfolding is_space
words_from word [] = if is_empty word then [] else word ∷ []
words_from word (c ∷ s) =
    let closed = words_from [] s in
    let longer = words_from (word ++ c ∷ []) s in
    if is_space c then (if is_empty word then closed else word ∷ closed) else longer

-- `sep.join(parts)`.
unfoldable pub join : List ℕ → List (List ℕ) → List ℕ
join sep [] = []
join sep (w ∷ []) = w
join sep (w ∷ v ∷ ws) = w ++ sep ++ join sep (v ∷ ws)

split_tests :
    (split_double b'<' (b'A' ∷ b'<' ∷ b'B' ∷ b'<' ∷ b'<' ∷ b'<' ∷ [])
      ≡ (b'A' ∷ b'<' ∷ b'B' ∷ [], some (b'<' ∷ [])))
    × (join (32 ∷ []) (words_from [] (32 ∷ 65 ∷ 32 ∷ 32 ∷ 66 ∷ [])) ≡ 65 ∷ 32 ∷ 66 ∷ [])
unfolding split_double words_from join
split_tests = (refl, refl)
