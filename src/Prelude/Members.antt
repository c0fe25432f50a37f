-- ===== src/Prelude/Members.antt =====
-- Membership in a list that a Boolean test filters.
use mathlib.Core.Path.{◌≡◌, refl, sym, ◌∙◌, ap}
use mathlib.Core.Bool.{Bool, true, false}
use mathlib.Core.List.{
  List, [], ◌∷◌, Mem, not-mem-nil, mem-cons_self, mem-cons_of_mem, mem-cast, eq-or-mem_of_mem-cons,
}
use mathlib.Core.Logic.Or
use mathlib.Core.Option.{none, some}
use mathlib.Core.Logic.{inl, inr}
use native.Mathlib.Omega.{arith}
use hawiya_ai.Prelude.Tests.{Bool-cases}
use hawiya_ai.Prelude.Lists.{filter, head?}

module _ {ℓ} {A : Type ℓ} (p : A → Bool) where
  abbrev keep : Bool → A → List A → List A
  keep b x rest = elim b [ true ↦ x ∷ rest | false ↦ rest ]

  keep-passes :
      (b : Bool) (a x : A) (rest : List A)
      → p x ≡ b
      → Mem a (keep b x rest)
      → (Mem a rest → p a ≡ true)
      → p a ≡ true
  keep-passes true a x rest e m h =
      Or.elim (hlevel) (eq-or-mem_of_mem-cons m) (λ same. ap p same ∙ e) h
  keep-passes false a x rest e m h = h m

  -- What a filter keeps passes its test.
  pub mem-filter : (a : A) (xs : List A) → Mem a (filter p xs) → p a ≡ true
  mem-filter a [] m = absurd (not-mem-nil m)
  mem-filter a (x ∷ xs) m =
      keep-passes (p x) a x (filter p xs) refl m (λ inside. mem-filter a xs inside)

pub some_injective {ℓ} : {A : Type ℓ} {a b : A} → some a ≡ some b → a ≡ b
some_injective {a = a} h = ap (λ o. elim o [ some x ↦ x | none ↦ a ]) h

-- The first row that a filter keeps passes its test.
pub head?-filter {ℓ} :
    {A : Type ℓ} (p : A → Bool) (xs : List A) (x : A) → head? (filter p xs) ≡ some x → p x ≡ true
head?-filter p [] x h = absurd (ground arith)
head?-filter p (a ∷ xs) x h = elim (Bool-cases (p a)) [
  | inl e ↦
      let kept_first : filter p (a ∷ xs) ≡ a ∷ filter p xs = rw (e, filter) in
      ap p (some_injective (sym h ∙ ap head? kept_first)) ∙ e
  | inr e ↦
      let passed : filter p (a ∷ xs) ≡ filter p xs = rw (e, filter) in
      head?-filter p xs x (sym (ap head? passed) ∙ h)
]

-- It is one of the list.
pub head?-mem {ℓ} :
    {A : Type ℓ} (p : A → Bool) (xs : List A) (x : A) → head? (filter p xs) ≡ some x → Mem x xs
head?-mem p [] x h = absurd (ground arith)
head?-mem p (a ∷ xs) x h = elim (Bool-cases (p a)) [
  | inl e ↦
      let kept_first : filter p (a ∷ xs) ≡ a ∷ filter p xs = rw (e, filter) in
      mem-cast (some_injective (sym h ∙ ap head? kept_first)) mem-cons_self
  | inr e ↦
      let passed : filter p (a ∷ xs) ≡ filter p xs = rw (e, filter) in
      mem-cons_of_mem a (head?-mem p xs x (sym (ap head? passed) ∙ h))
]

-- A property of each element of a list.
abbrev pub Each {ℓ κ} : {A : Type ℓ} → (A → Type κ) → List A → Type κ
Each P [] = Unit
Each P (x ∷ xs) = P x × Each P xs

pub Each-of_mem {ℓ κ} :
    {A : Type ℓ} (P : A → Type κ) (xs : List A) → ((x : A) → Mem x xs → P x) → Each P xs
Each-of_mem P [] h = tt
Each-of_mem P (a ∷ xs) h = (h a mem-cons_self, Each-of_mem P xs (λ x m. h x (mem-cons_of_mem a m)))

-- Where a filter keeps nothing, each element fails its test.
pub head?-none {ℓ κ} :
    {A : Type ℓ} (p : A → Bool) (P : A → Type κ)
    → ((x : A) → p x ≡ false → P x)
    → (xs : List A) → head? (filter p xs) ≡ none
    → Each P xs
head?-none p P h [] e = tt
head?-none p P h (a ∷ xs) e = elim (Bool-cases (p a)) [
  | inl yes_a ↦
      let kept_first : filter p (a ∷ xs) ≡ a ∷ filter p xs = rw (yes_a, filter) in
      absurd (cc (sym (ap head? kept_first) ∙ e))
  | inr no_a ↦
      let passed : filter p (a ∷ xs) ≡ filter p xs = rw (no_a, filter) in
      (h a no_a, head?-none p P h xs (sym (ap head? passed) ∙ e))
]
