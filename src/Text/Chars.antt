-- ===== src/Text/Chars.antt =====
-- The characters of a text by their places.
use hawiya_ai.Prelude.{
  ℕ, zero, suc, ◌+◌, ◌<◌, ◌≡◌, refl, ◌∙◌, ap, ap₂, [], ◌∷◌, ◌++◌, arith, length, take, drop, map,
}
use hawiya_ai.Text.{Text, char_at}

pub char_at-append_left : (s t : Text) (k : ℕ) → k < length s → char_at k (s ++ t) ≡ char_at k s
char_at-append_left [] t k h = absurd (omega arith)
char_at-append_left (c ∷ s) t zero h = refl
char_at-append_left (c ∷ s) t (suc k) h = char_at-append_left s t k (omega arith)

pub char_at-append_right :
    (s t : Text) (k m : ℕ) → k ≡ length s + m → char_at k (s ++ t) ≡ char_at m t
char_at-append_right [] t k m h = ap (λ n. char_at n t) (h ∙ omega arith)
char_at-append_right (c ∷ s) t zero m h = absurd (omega arith)
char_at-append_right (c ∷ s) t (suc k) m h = char_at-append_right s t k m (omega arith)

pub char_at-take : (n k : ℕ) (s : Text) → k < n → char_at k (take n s) ≡ char_at k s
char_at-take zero k s h = absurd (omega arith)
char_at-take (suc n) k [] h = refl
char_at-take (suc n) zero (c ∷ s) h = refl
char_at-take (suc n) (suc k) (c ∷ s) h = char_at-take n k s (omega arith)

pub char_at-drop : (n k m : ℕ) (s : Text) → m ≡ n + k → char_at k (drop n s) ≡ char_at m s
char_at-drop zero k m s h = ap (λ i. char_at i s) (omega (arith, h))
char_at-drop (suc n) k m [] h = refl
char_at-drop (suc n) k zero (c ∷ s) h = absurd (omega arith)
char_at-drop (suc n) k (suc m) (c ∷ s) h = char_at-drop n k m s (omega arith)

pub char_at-map :
    (f : ℕ → ℕ) (s : Text) (k : ℕ) → k < length s → char_at k (map f s) ≡ f (char_at k s)
char_at-map f [] k h = absurd (omega arith)
char_at-map f (c ∷ s) zero h = refl
char_at-map f (c ∷ s) (suc k) h = char_at-map f s k (omega arith)

-- Texts of one length with the same characters are equal.
pub char_at-eq :
    (s t : Text)
    → length s ≡ length t
    → ((k : ℕ) → k < length s → char_at k s ≡ char_at k t)
    → s ≡ t
char_at-eq [] [] h e = refl
char_at-eq [] (d ∷ t) h e = absurd (omega arith)
char_at-eq (c ∷ s) [] h e = absurd (omega arith)
char_at-eq (c ∷ s) (d ∷ t) h e =
    ap₂ ◌∷◌ (e 0 (omega arith)) (char_at-eq s t (omega arith) (λ k l. e (suc k) (omega arith)))
