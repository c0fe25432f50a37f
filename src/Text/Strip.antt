-- ===== src/Text/Strip.antt =====
-- `str.strip`, `str.rstrip(c)`, and the white space that Python's `str` methods know.
use hawiya_ai.Prelude.{
  ℕ, zero, suc, ◌≡◌, refl, ◌∙◌, Bool, true, false, ◌&&◌, ◌||◌, List, [], ◌∷◌, ◌++◌, arith, leb,
  ◌==◌, if◌then◌else◌, is_empty, replicate, ==-refl,
}

-- `c.isspace()` for one character.
unfoldable pub is_space : ℕ → Bool
is_space c =
    (leb 9 c && leb c 13)
    || (leb 28 c && leb c 32)
    || (c == 0x85)
    || (c == 0xa0)
    || (c == 0x1680)
    || (leb 0x2000 c && leb c 0x200a)
    || (c == 0x2028)
    || (c == 0x2029)
    || (c == 0x202f)
    || (c == 0x205f)
    || (c == 0x3000)

unfoldable pub lstrip_if : (ℕ → Bool) → List ℕ → List ℕ
lstrip_if p [] = []
lstrip_if p (c ∷ s) = let rest = lstrip_if p s in if p c then rest else c ∷ s

unfoldable pub rstrip_if : (ℕ → Bool) → List ℕ → List ℕ
rstrip_if p [] = []
rstrip_if p (c ∷ s) = let rest = rstrip_if p s in if is_empty rest && p c then [] else c ∷ rest

-- `s.rstrip(c)`.
unfoldable pub rstrip : ℕ → List ℕ → List ℕ
unfolding rstrip_if
rstrip c = rstrip_if (λ x. x == c)

-- `s.strip()`.
unfoldable pub strip : List ℕ → List ℕ
unfolding lstrip_if rstrip_if is_space
strip s = rstrip_if is_space (lstrip_if is_space s)

-- What `rstrip` takes off is a run of the stripped character.
pub rstrip_if-replicate :
    (p : ℕ → Bool) (s : List ℕ) (n c : ℕ)
    → p c ≡ true
    → rstrip_if p (s ++ replicate n c) ≡ rstrip_if p s
unfolding rstrip_if
rstrip_if-replicate p [] zero c h = refl
rstrip_if-replicate p [] (suc n) c h = ground (arith, rstrip_if-replicate p [] n c h)
rstrip_if-replicate p (x ∷ s) n c h = ground (arith, rstrip_if-replicate p s n c h)

-- No character of the text is one that `p` strips.
abbrev pub NoneOf : (ℕ → Bool) → List ℕ → Type 0
NoneOf p [] = Unit
NoneOf p (c ∷ s) = (p c ≡ false) × NoneOf p s

pub rstrip_if_of_NoneOf : (p : ℕ → Bool) (s : List ℕ) → NoneOf p s → rstrip_if p s ≡ s
unfolding rstrip_if
rstrip_if_of_NoneOf p [] h = refl
rstrip_if_of_NoneOf p (c ∷ s) h = ground (arith, rstrip_if_of_NoneOf p s h.1)

pub lstrip_if_of_NoneOf : (p : ℕ → Bool) (s : List ℕ) → NoneOf p s → lstrip_if p s ≡ s
unfolding lstrip_if
lstrip_if_of_NoneOf p [] h = refl
lstrip_if_of_NoneOf p (c ∷ s) h = ground arith

lstrip_kept : (p : ℕ → Bool) (c : ℕ) (s : List ℕ) → p c ≡ false → lstrip_if p (c ∷ s) ≡ c ∷ s
unfolding lstrip_if
lstrip_kept p c s h = rw h

-- Padding a field that does not hold the filler and stripping the filler gives the field back.
pub rstrip-append-replicate :
    (c n : ℕ) (s : List ℕ) → NoneOf (λ x. x == c) s → rstrip c (s ++ replicate n c) ≡ s
unfolding rstrip
rstrip-append-replicate c n s h =
    rstrip_if-replicate _ s n c (==-refl c) ∙ rstrip_if_of_NoneOf _ s h

pub lstrip_if-replicate : (p : ℕ → Bool) (n c : ℕ) → p c ≡ true → lstrip_if p (replicate n c) ≡ []
unfolding lstrip_if
lstrip_if-replicate p zero c h = refl
lstrip_if-replicate p (suc n) c h = rw h (lstrip_if-replicate p n c h)

-- Stripping on both sides a text that begins with a kept character, behind stripped ones.
pub strip_kept :
    (c : ℕ) (s : List ℕ) (n : ℕ)
    → is_space c ≡ false
    → rstrip_if is_space (c ∷ s) ≡ c ∷ s
    → strip ((c ∷ s) ++ replicate n 32) ≡ c ∷ s
unfolding strip
strip_kept c s n h k =
    rw (lstrip_kept is_space c (s ++ replicate n 32) h)
      (rstrip_if-replicate is_space (c ∷ s) n 32 refl ∙ k)

pub strip-replicate : (n : ℕ) → strip (replicate n 32) ≡ []
unfolding strip
strip-replicate n = rw (lstrip_if-replicate is_space n 32 refl)
