-- ===== src/Database/Reads.antt =====
-- Actions that read the tables and write nothing, run in two states side by side.
use hawiya_ai.Prelude.{
  ◌≡◌, refl, ◌∙◌, ap, sym, Bool, true, ◌==◌, and-true, filter-filter, List, [], ◌∷◌, Option, none,
  some, ok, err, Result, filter,
}
use hawiya_ai.Models.{Uuid, Person, PersonIdentifier, IdentifierType}
use hawiya_ai.Text.{Text}
use hawiya_ai.Database.World.{World, Action, Failure, multiple_results, continue, pure, ◌>>=◌}
use hawiya_ai.Database.Repositories.{
  scalar_one_or_none, is_active_as, find_active, is_person, get_person,
}

-- The action gives the same in both states and leaves both as they are.
abbrev pub IsSameRead : {A : Type 0} → Action A → World → World → Type 0
IsSameRead {A} m w v = (r : Result Failure A) × (m w ≡ (r, w)) × (m v ≡ (r, v))

pub pure-IsSameRead : {A : Type 0} (a : A) (w v : World) → IsSameRead (pure a) w v
pure-IsSameRead a w v = (ok a, refl, refl)

pub bind-IsSameRead :
    {A B : Type 0} (m : Action A) (f : A → Action B) (w v : World)
    → IsSameRead m w v
    → ((a : A) → IsSameRead (f a) w v)
    → IsSameRead (m >>= f) w v
bind-IsSameRead m f w v (err e, p, q) k = (err e, ap (continue f) p, ap (continue f) q)
bind-IsSameRead m f w v (ok a, p, q) k =
    let (r, p', q') = k a in (r, ap (continue f) p ∙ p', ap (continue f) q ∙ q')

pub scalar-IsSameRead :
    {A : Type 0} (rows others : List A) (w v : World)
    → rows ≡ others
    → (r : Result Failure (Option A)) × (scalar_one_or_none rows w ≡ (r, w))
      × (scalar_one_or_none others v ≡ (r, v))
scalar-IsSameRead [] others w v h = (ok none, refl, ap (λ l. scalar_one_or_none l v) (sym h))
scalar-IsSameRead (row ∷ []) others w v h =
    (ok (some row), refl, ap (λ l. scalar_one_or_none l v) (sym h))
scalar-IsSameRead (row ∷ other ∷ rows) others w v h =
    (err multiple_results, refl, ap (λ l. scalar_one_or_none l v) (sym h))

-- Two states that hold the same rows of a tenant, whatever the rows of the other tenants are.
pub record IsSameTenant (tenant_id : Uuid) (w v : World) : Type 0 where
  pub identifiers :
      filter (λ row. row.tenant_id == tenant_id) w.stored.identifiers
      ≡ filter (λ row. row.tenant_id == tenant_id) v.stored.identifiers
  pub persons :
      filter (λ row. row.tenant_id == tenant_id) w.stored.persons
      ≡ filter (λ row. row.tenant_id == tenant_id) v.stored.persons

-- What a query of the tenant selects is the same in both.
pub selects_same :
    {A : Type 0} (p q : A → Bool) (rows others : List A)
    → ((row : A) → p row ≡ true → q row ≡ true)
    → filter q rows ≡ filter q others
    → filter p rows ≡ filter p others
selects_same p q rows others h same =
    sym (filter-filter p q rows h) ∙ ap (filter p) same ∙ filter-filter p q others h

is_active_as-tenant :
    (tenant_id : Uuid) (ty : IdentifierType) (value : Text) (row : PersonIdentifier)
    → is_active_as tenant_id ty value row ≡ true
    → (row.tenant_id == tenant_id) ≡ true
unfolding is_active_as
is_active_as-tenant tenant_id ty value row h = (and-true _ _ h).0

is_person-tenant :
    (tenant_id person_uuid : Uuid) (row : Person)
    → is_person tenant_id person_uuid row ≡ true
    → (row.tenant_id == tenant_id) ≡ true
unfolding is_person
is_person-tenant tenant_id person_uuid row h = (and-true _ _ h).0

module _ (tenant_id : Uuid) (w v : World) (same : IsSameTenant tenant_id w v) where
  pub find_active-IsSameRead :
      (ty : IdentifierType) (value : Text) → IsSameRead (find_active tenant_id ty value) w v
  unfolding find_active
  find_active-IsSameRead ty value =
      scalar-IsSameRead _ _ w v
        (selects_same _ _ _ _ (is_active_as-tenant tenant_id ty value) same.identifiers)

  pub get_person-IsSameRead :
      (person_uuid : Uuid) → IsSameRead (get_person tenant_id person_uuid) w v
  unfolding get_person
  get_person-IsSameRead person_uuid =
      scalar-IsSameRead _ _ w v
        (selects_same _ _ _ _ (is_person-tenant tenant_id person_uuid) same.persons)
