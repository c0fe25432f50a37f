-- ===== src/Dict.antt =====
-- Python's `dict` as an association list, over keys with an equality test.
use hawiya_ai.Prelude.{
  ◌≡◌, refl, ap, ◌↔◌, ◌∙◌, Bool, true, false, Option, none, some, List, [], ◌∷◌, arith,
  if◌then◌else◌, Bool-cases, inl, inr,
}

-- The equality of the keys.
pub record Eq (K : Type 0) : Type 0 where
  pub eq : K → K → Bool
  pub eq_iff : (a b : K) → (eq a b ≡ true) ↔ (a ≡ b)

pub eq_refl : {K : Type 0} ⦃e : Eq K⦄ (k : K) → e.eq k k ≡ true
eq_refl ⦃e⦄ k = (e.eq_iff k k).1 refl

module _ {K V : Type 0} ⦃e : Eq K⦄ where
  -- `d.get(key)`.
  unfoldable pub lookup : K → List (K × V) → Option V
  lookup key [] = none
  lookup key ((k, v) ∷ d) = let rest = lookup key d in if e.eq k key then some v else rest

  -- `d[key] = value`.
  unfoldable pub insert : K → V → List (K × V) → List (K × V)
  insert key value [] = (key, value) ∷ []
  insert key value ((k, v) ∷ d) =
      let rest = (k, v) ∷ insert key value d in if e.eq k key then (k, value) ∷ d else rest

  -- `d.pop(key, None)`: every entry of the key goes, and there is at most one.
  unfoldable pub remove : K → List (K × V) → List (K × V)
  remove key [] = []
  remove key ((k, v) ∷ d) = let rest = remove key d in if e.eq k key then rest else (k, v) ∷ rest

  pub lookup-insert_self :
      (key : K) (value : V) (d : List (K × V)) → lookup key (insert key value d) ≡ some value
  unfolding lookup insert
  lookup-insert_self key value [] = rw (eq_refl key) refl
  lookup-insert_self key value ((k, v) ∷ d) =
      ground (arith, lookup-insert_self key value d, Bool-cases (e.eq k key))

  pub lookup-insert_other :
      (key other : K) (value : V) (d : List (K × V))
      → e.eq key other ≡ false
      → lookup other (insert key value d) ≡ lookup other d
  unfolding lookup insert
  lookup-insert_other key other value [] h = rw h refl
  lookup-insert_other key other value ((k, v) ∷ d) h = elim (Bool-cases (e.eq k key)) [
    | inl t ↦ rw (t, lookup) (rw (ap (λ x. e.eq x other) ((e.eq_iff k key).0 t) ∙ h) refl)
    | inr f ↦ rw (f, lookup, lookup-insert_other key other value d h) refl
  ]

  pub lookup-remove_other :
      (key other : K) (d : List (K × V))
      → e.eq key other ≡ false
      → lookup other (remove key d) ≡ lookup other d
  unfolding lookup remove
  lookup-remove_other key other [] h = refl
  lookup-remove_other key other ((k, v) ∷ d) h = elim (Bool-cases (e.eq k key)) [
    | inl t ↦
        rw (t, ap (λ x. e.eq x other) ((e.eq_iff k key).0 t) ∙ h)
          (lookup-remove_other key other d h)
    | inr f ↦ rw (f, lookup, lookup-remove_other key other d h) refl
  ]

  pub lookup-remove_self : (key : K) (d : List (K × V)) → lookup key (remove key d) ≡ none
  unfolding lookup remove
  lookup-remove_self key [] = refl
  lookup-remove_self key ((k, v) ∷ d) = ground (arith, lookup-remove_self key d)

  pub remove-insert_self :
      (key : K) (value : V) (d : List (K × V)) → remove key (insert key value d) ≡ remove key d
  unfolding insert remove
  remove-insert_self key value [] = rw (eq_refl key) refl
  remove-insert_self key value ((k, v) ∷ d) = elim (Bool-cases (e.eq k key)) [
    | inl t ↦ rw (t, remove, t) refl
    | inr f ↦ rw (f, remove, f, remove-insert_self key value d) refl
  ]

  pub remove-missing : (key : K) (d : List (K × V)) → lookup key d ≡ none → remove key d ≡ d
  unfolding lookup remove
  remove-missing key [] h = refl
  remove-missing key ((k, v) ∷ d) h = elim (Bool-cases (e.eq k key)) [
    | inl t ↦ absurd (ground arith)
    | inr f ↦ rw (f, remove-missing key d (rw f at h)) refl
  ]
