-- ===== src/Api/Persons/Lookup.antt =====
-- `GET /v1/persons/{uuid}` of src/hawiya/api/persons.py, next to what the table of persons holds.
use hawiya_ai.Prelude.{
  ◌≡◌, refl, sym, ◌∙◌, ap, ◌⊎◌, inl, inr, true, false, and-true, and_intro, ==_iff, Option, none,
  some, [], ok, head?-filter, arith, Each, head?-mem, head?-none,
}
use mathlib.Core.Path.{subst}
use mathlib.Core.List.{Mem}
use hawiya_ai.Text.{Text, text}
use hawiya_ai.Models.{Uuid, Person}
use hawiya_ai.Matching.Decision.{person_of, get_person-eq}
use hawiya_ai.Database.Environment.{Environment}
use hawiya_ai.Database.World.{World, Tables, continue, commit}
use hawiya_ai.Database.Repositories.{is_person, get_person}
use hawiya_ai.Database.Steps.{both-none}
use hawiya_ai.Services.Base.{require_tenant_id}
use hawiya_ai.Services.Base.Tenancy.{requires_tenant-own}
use hawiya_ai.Services.Person
use hawiya_ai.Api.Types.{Response, reply, error, error_response, Database, begin, end, transaction}
use hawiya_ai.Api.Conflict.{IsSound}
use hawiya_ai.Api.Persons
use hawiya_ai.Api.Persons.{found_or_404}
use hawiya_ai.Api.Persons.Reply.{PersonResponse, to_response}

-- Whether a row is the tenant's person with this UUID.
abbrev pub IsAsked : Uuid → Uuid → Person → Type 0
IsAsked tenant_id person_uuid p = (p.tenant_id ≡ tenant_id) × (p.person_uuid ≡ person_uuid)

is_person-IsAsked :
    (tenant_id person_uuid : Uuid) (p : Person)
    → is_person tenant_id person_uuid p ≡ true
    → IsAsked tenant_id person_uuid p
unfolding is_person
is_person-IsAsked tenant_id person_uuid p h =
    let (own, key) = and-true _ _ h in ((==_iff _ _).0 own, (==_iff _ _).0 key)

is_person-unasked :
    (tenant_id person_uuid : Uuid) (p : Person)
    → is_person tenant_id person_uuid p ≡ false
    → ¬ IsAsked tenant_id person_uuid p
unfolding is_person
is_person-unasked tenant_id person_uuid p h = λ (own, key).
    let found = and_intro _ _ ((==_iff _ _).1 own) ((==_iff _ _).1 key) in ground (arith, found, h)

module _ (env : Environment) (tenant_id : Uuid) (db : Database) (sound : IsSound env db)
    (request_id : Option Text) (person_uuid : Uuid) where
  abbrev start : World
  start = begin (some tenant_id) request_id db

  -- An answer that leaves the database as it was.
  abbrev Stays : Response PersonResponse → Option (Response PersonResponse) × Database → Type 0
  Stays response r = r ≡ (some response, db)

  unchanged : (response : Response PersonResponse) → Stays response (end db (ok response, start))
  unfolding commit
  unchanged response =
      ap (λ (t : Tables). (some response, record { tables = t; drawn = db.drawn }))
        (both-none db.tables)

  -- A row that is asked for and its reply, or no such row and a 404.
  abbrev pub IsFetch : Option (Response PersonResponse) × Database → Type 0
  IsFetch r =
      ((p : Person) × Mem p db.tables.persons
        × IsAsked tenant_id person_uuid p
        × Stays (reply (to_response db.tables p)) r)
      ⊎ (Each (λ p. ¬ IsAsked tenant_id person_uuid p) db.tables.persons
          × Stays (error (error_response (text "NOT_FOUND") 404 [] request_id)) r)

  on_found :
      (o : Option Person)
      → person_of db.tables tenant_id person_uuid ≡ o
      → IsFetch (end db (continue found_or_404 (ok o, start)))
  on_found none h = inr (
    head?-none (is_person tenant_id person_uuid) _ (is_person-unasked tenant_id person_uuid)
        db.tables.persons h,
    unchanged _,
  )
  on_found (some p) h = inl (
    p,
    head?-mem (is_person tenant_id person_uuid) db.tables.persons p h,
    is_person-IsAsked tenant_id person_uuid p
        (head?-filter (is_person tenant_id person_uuid) db.tables.persons p h),
    unchanged _,
  )

  -- In a database whose rows are keyed, the call that fetches a person is answered with the person of
  -- the caller's tenant that has the UUID asked for, and with a 404 exactly when the tenant has no such
  -- person, even if another tenant has one; the database stays as it was.
  pub get_person-IsFetch :
      IsFetch (transaction (some tenant_id) request_id (Persons.get_person person_uuid) db)
  unfolding transaction Persons.get_person require_tenant_id Person.get
  get_person-IsFetch =
      subst (λ r. IsFetch (end db (continue found_or_404 r)))
        (sym (
          requires_tenant-own (λ t. get_person t person_uuid) tenant_id start refl
          ∙ get_person-eq start sound.keyed tenant_id person_uuid))
        (on_found (person_of db.tables tenant_id person_uuid) refl)
