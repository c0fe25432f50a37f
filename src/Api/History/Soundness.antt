-- ===== src/Api/History/Soundness.antt =====
-- The keys and the UUIDs of the database behind any sequence of requests.
use hawiya_ai.Prelude.{◌≡◌, refl, Option, none, some, List, [], ◌∷◌, arith}
use hawiya_ai.Text.{Text}
use hawiya_ai.Models.{Uuid}
use hawiya_ai.Database.Environment.{Environment}
use hawiya_ai.Database.Search.{Postgres}
use hawiya_ai.Api.Types.{Database, transaction}
use hawiya_ai.Api.Conflict.{IsSound}
use hawiya_ai.Api.Steps.{
  IsTransition, extract_document-IsTransition, resolve_identity-IsTransition,
  create_person-IsTransition, get_person-IsTransition, search_persons-IsTransition,
}
use hawiya_ai.Api.History.{
  Call, extracts, resolves, creates, fetches, searches, Event, empty, handle, after, run,
}

module _ (env : Environment) (postgres : Postgres) where
  pub after-IsTransition :
      (tenant_id : Uuid) (request_id : Option Text) (call : Call) (db : Database)
      → IsSound env db
      → IsTransition env tenant_id db (after env postgres (some tenant_id) request_id call db)
  unfolding handle
  after-IsTransition tenant_id request_id (extracts payload content_type consumer_id) db sound =
      extract_document-IsTransition env tenant_id request_id db sound payload content_type
        consumer_id
  after-IsTransition tenant_id request_id (resolves payload content_type consumer_id create) db
        sound =
      resolve_identity-IsTransition env tenant_id request_id db sound payload content_type
        consumer_id create
  after-IsTransition tenant_id request_id (creates body) db sound =
      create_person-IsTransition env tenant_id request_id db sound body
  after-IsTransition tenant_id request_id (fetches person_uuid) db sound =
      get_person-IsTransition env tenant_id request_id db sound person_uuid
  after-IsTransition tenant_id request_id (searches body) db sound =
      search_persons-IsTransition env tenant_id request_id db sound postgres body

  -- A request without a tenant has no transaction.
  pub after-none :
      (request_id : Option Text) (call : Call) (db : Database)
      → after env postgres none request_id call db ≡ db
  unfolding handle transaction
  after-none request_id (extracts payload content_type consumer_id) db = refl
  after-none request_id (resolves payload content_type consumer_id create) db = refl
  after-none request_id (creates body) db = refl
  after-none request_id (fetches person_uuid) db = refl
  after-none request_id (searches body) db = refl

  pub after-IsSound :
      (tenant_id : Option Uuid) (request_id : Option Text) (call : Call) (db : Database)
      → IsSound env db
      → IsSound env (after env postgres tenant_id request_id call db)
  after-IsSound none request_id call db sound = rw after-none sound
  after-IsSound (some tenant_id) request_id call db sound =
      (after-IsTransition tenant_id request_id call db sound).sound

  pub keeps-IsSound :
      (events : List Event) (db : Database)
      → IsSound env db
      → IsSound env (run env postgres events db)
  unfolding run
  keeps-IsSound [] db sound = sound
  keeps-IsSound (e ∷ events) db sound =
      keeps-IsSound events _ (after-IsSound e.tenant_id e.request_id e.call db sound)

  empty-IsSound : IsSound env empty
  empty-IsSound = record {
    keyed = record { identifiers = λ t ty v. omega arith; persons = λ t u. omega arith };
    fresh = record { unused = λ m h t. refl };
  }

  -- In the database that any sequence of requests of any tenants builds from the empty one, at most
  -- one active identifier answers for a tenant, a type and a value, at most one person for a tenant
  -- and a key, and no person has a UUID that is still to be drawn.
  pub run-IsSound : (events : List Event) → IsSound env (run env postgres events empty)
  run-IsSound events = keeps-IsSound events empty empty-IsSound
