-- ===== src/Database/Registry.antt =====
-- The tables seen as a registry: the person that an identifier stands for.
use hawiya_ai.Prelude.{
  ◌≡◌, refl, sym, ◌∙◌, ap, ap₂, Bool, true, false, ◌&&◌, Option, none, some, List, [], ◌∷◌, ◌++◌,
  filter, filter-append, head?, Bool-cases, inl, inr, ◌==◌, if◌then◌else◌,
}
use mathlib.Core.List.{append-nil}
use hawiya_ai.Text.{Text, text_eq}
use hawiya_ai.Models.{Uuid, PersonIdentifier, IdentifierType}
use hawiya_ai.Matching.Decision.{active}
use hawiya_ai.Database.World.{Tables}
use hawiya_ai.Database.Repositories.{is_active_as, is_active, type_eq}
use hawiya_ai.Database.Keys.{is_active_as-key, filter-one-true, filter-one-false}

-- The person of a tenant, a type of identifier and a value, if there is one.
abbrev pub Registry : Type 0
Registry = Uuid → IdentifierType → Text → Option Uuid

abbrev pub bearer : Option PersonIdentifier → Option Uuid
bearer none = none
bearer (some row) = some row.person_uuid

abbrev pub registry_of : List PersonIdentifier → Registry
registry_of rows tenant_id ty value = bearer (head? (filter (is_active_as tenant_id ty value) rows))

abbrev pub is_key : Uuid → IdentifierType → Text → Uuid → IdentifierType → Text → Bool
is_key tenant_id ty value t ty' value' =
    (tenant_id == t) && (type_eq ty ty' && text_eq value value')

-- A value that is given is registered to a person.
abbrev pub register : Registry → Uuid → IdentifierType → Option Text → Uuid → Registry
register r tenant_id ty none person_uuid = r
register r tenant_id ty (some value) person_uuid = λ t ty' value'.
    if is_key tenant_id ty value t ty' value' then some person_uuid else r t ty' value'

-- The bearer of a value that may not be given.
abbrev pub registered : Registry → Uuid → IdentifierType → Option Text → Option Uuid
registered r tenant_id ty none = none
registered r tenant_id ty (some value) = r tenant_id ty value

pub registered-active :
    (s : Tables) (tenant_id : Uuid) (ty : IdentifierType) (value : Option Text)
    → registered (registry_of s.identifiers) tenant_id ty value
      ≡ bearer (active s tenant_id ty value)
registered-active w tenant_id ty none = refl
registered-active w tenant_id ty (some value) = refl

module _ (rows : List PersonIdentifier) (row : PersonIdentifier)
    (free : filter (is_active_as row.tenant_id row.identifier_type row.identifier_value) rows ≡ [])
    (t : Uuid) (ty : IdentifierType) (value : Text) where
  -- A new row registers its own key, if that is free.
  pub registry_of-append :
      registry_of (rows ++ row ∷ []) t ty value
      ≡ (if is_active_as t ty value row then some row.person_uuid else registry_of rows t ty value)
  registry_of-append = elim (Bool-cases (is_active_as t ty value row)) [
    | inl h ↦
        let (a, b, c) = is_active_as-key t ty value row h in
        let none_yet : filter (is_active_as t ty value) rows ≡ [] =
          sym (
            ap (λ u. filter (is_active_as u row.identifier_type row.identifier_value) rows) a
            ∙ ap₂ (λ ty' v. filter (is_active_as t ty' v) rows) b c)
          ∙ free in
        let e : filter (is_active_as t ty value) (rows ++ row ∷ []) ≡ row ∷ [] =
          filter-append _ rows (row ∷ [])
          ∙ rw (none_yet, filter-one-true (is_active_as t ty value) row h) in
        ap (λ l. bearer (head? l)) e ∙ rw h refl
    | inr h ↦
        let e : filter (is_active_as t ty value) (rows ++ row ∷ [])
            ≡ filter (is_active_as t ty value) rows =
          filter-append _ rows (row ∷ [])
          ∙ ap (λ l. filter (is_active_as t ty value) rows ++ l)
              (filter-one-false (is_active_as t ty value) row h)
          ∙ append-nil _ in
        ap (λ l. bearer (head? l)) e ∙ rw h refl
  ]

and-true-right : (b : Bool) → (b && true) ≡ b
and-true-right true = refl
and-true-right false = refl

-- The row registers its value to its person.
pub registry_of-register :
    (rows : List PersonIdentifier) (row : PersonIdentifier)
    → is_active row.status ≡ true
    → filter (is_active_as row.tenant_id row.identifier_type row.identifier_value) rows ≡ []
    → (t : Uuid) (ty : IdentifierType) (value : Text)
    → registry_of (rows ++ row ∷ []) t ty value
      ≡ register
          (registry_of rows)
          row.tenant_id
          row.identifier_type
          (some row.identifier_value)
          row.person_uuid
          t
          ty
          value
unfolding is_active_as
registry_of-register rows row on free t ty value =
    registry_of-append rows row free t ty value
    ∙ ap
        (λ b.
          if (row.tenant_id == t) && (type_eq row.identifier_type ty && b)
          then some row.person_uuid
          else registry_of rows t ty value)
        (ap (λ b. text_eq row.identifier_value value && b) on
          ∙ and-true-right (text_eq row.identifier_value value))

pub register-same :
    (r s : Registry) (tenant_id : Uuid) (ty : IdentifierType) (value : Option Text)
    (person_uuid : Uuid) (t : Uuid) (ty' : IdentifierType) (value' : Text)
    → r t ty' value' ≡ s t ty' value'
    → register r tenant_id ty value person_uuid t ty' value'
      ≡ register s tenant_id ty value person_uuid t ty' value'
register-same r s tenant_id ty none person_uuid t ty' value' h = h
register-same r s tenant_id ty (some value) person_uuid t ty' value' h =
    ap (λ o. if is_key tenant_id ty value t ty' value' then some person_uuid else o) h
