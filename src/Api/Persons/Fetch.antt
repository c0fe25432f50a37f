-- ===== src/Api/Persons/Fetch.antt =====
-- `GET /v1/persons/{uuid}` behind `POST /v1/persons`: src/hawiya/api/persons.py.
use hawiya_ai.Prelude.{
  ◌≡◌, refl, sym, ◌∙◌, ap, true, false, Option, some, [], ◌∷◌, ◌++◌, arith, filter, filter-append,
  and_intro, ==-refl, ok,
}
use mathlib.Core.List.{append-nil}
use hawiya_ai.Text.{Text}
use hawiya_ai.Models.{Uuid, Person}
use hawiya_ai.Matching.Types.{is_hit}
use hawiya_ai.Database.Environment.{Environment}
use hawiya_ai.Database.World.{World, Tables, both, commit, continue}
use hawiya_ai.Database.Repositories.{is_person, get_person}
use hawiya_ai.Services.Base.{require_tenant_id}
use hawiya_ai.Services.Base.Tenancy.{requires_tenant-own}
use hawiya_ai.Services.Person
use hawiya_ai.Services.Person.{NewPerson, create}
use hawiya_ai.Services.Person.Effect.{inserted, after_insert, guard_result, guarded, create-eq}
use hawiya_ai.Api.Types.{Response, reply, Database, begin, end, answer, transaction}
use hawiya_ai.Api.Persons
use hawiya_ai.Api.Persons.{create_handlers, create_person, found_or_404}
use hawiya_ai.Api.Persons.Reply.{PersonResponse, to_response, serialised}
use hawiya_ai.Api.Conflict.{IsSound, route-eq}
use hawiya_ai.Database.Steps.{both-none}

module _ (env : Environment) (tenant_id : Uuid) (body : NewPerson) (db : Database)
    (sound : IsSound env db) (request_id next_id : Option Text)
    (miss : is_hit (guard_result env body tenant_id (begin (some tenant_id) request_id db)).action
      ≡ false) where
  abbrev start : World
  start = begin (some tenant_id) request_id db

  abbrev person : Person
  person = inserted env body tenant_id start

  abbrev tables : Tables
  tables = (after_insert env body tenant_id start).stored

  is_own : is_person tenant_id person.person_uuid person ≡ true
  unfolding is_person
  is_own = and_intro _ _ (==-refl tenant_id) (==-refl person.person_uuid)

  only_person : filter (is_person tenant_id person.person_uuid) tables.persons ≡ person ∷ []
  unfolding both
  only_person =
      let own = is_person tenant_id person.person_uuid in
      let fresh : filter own db.tables.persons ≡ [] =
        sound.fresh.unused db.drawn (omega arith) tenant_id in
      let one : filter own (person ∷ []) ≡ person ∷ [] = rw (is_own, filter) in
      ap (filter own) (append-nil (db.tables.persons ++ person ∷ []))
      ∙ filter-append own db.tables.persons (person ∷ [])
      ∙ rw (fresh, one) refl

  abbrev after : Database
  after = record { tables = tables; drawn = (after_insert env body tenant_id start).drawn }

  abbrev first : Option (Response PersonResponse) × Database
  first = transaction (some tenant_id) request_id (create_person env body) db

  first-eq : first ≡ (some (reply (to_response tables person)), after)
  unfolding commit
  first-eq =
      route-eq env tenant_id body db sound request_id request_id db
      ∙ ap (λ r. end db (continue serialised (answer create_handlers r)))
          (create-eq env body tenant_id start refl sound.keyed
            ∙ ap (guarded env body tenant_id start) miss)
      ∙ ap
          (λ (t : Tables). (
            some (reply (to_response tables person)),
            record { tables = t; drawn = (after_insert env body tenant_id start).drawn },
          ))
          (both-none tables)

  abbrev later : World
  later = begin (some tenant_id) next_id after

  get-own : Person.get tenant_id person.person_uuid later ≡ (ok (some person), later)
  unfolding Person.get get_person
  get-own =
      requires_tenant-own (λ t. get_person t person.person_uuid) tenant_id later refl
      ∙ rw only_person refl

  fetched :
      transaction (some tenant_id) next_id (Persons.get_person person.person_uuid) after
      ≡ (some (reply (to_response tables person)), after)
  unfolding transaction Persons.get_person require_tenant_id commit
  fetched =
      ap (λ r. end after (continue found_or_404 r)) get-own
      ∙ ap
          (λ (t : Tables).
            (some (reply (to_response tables person)), record { tables = t; drawn = after.drawn }))
          (both-none tables)

  -- In a database whose rows are keyed and whose UUIDs still to be drawn are unused: if the matcher
  -- has no hit for a body, the call that creates the person is answered by a reply, and the person
  -- that is fetched next under the key in it has the same reply; the fetch changes nothing.
  pub get_person-create_person :
      (p : PersonResponse) × (first.0 ≡ some (reply p))
      × (transaction (some tenant_id) next_id (Persons.get_person p.person_uuid) first.1
          ≡ (some (reply p), first.1))
  unfolding to_response
  get_person-create_person = (
    to_response tables person,
    ap (λ r. r.0) first-eq,
    ap
          (λ (d : Database).
            transaction (some tenant_id) next_id (Persons.get_person person.person_uuid) d)
          (ap (λ r. r.1) first-eq)
        ∙ fetched
        ∙ ap (λ (d : Database). (some (reply (to_response tables person)), d))
            (sym (ap (λ r. r.1) first-eq)),
  )
