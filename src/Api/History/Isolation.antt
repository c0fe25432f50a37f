-- ===== src/Api/History/Isolation.antt =====
-- What a tenant reads behind any sequence of requests of others.
use hawiya_ai.Prelude.{
  ◌≡◌, ◌≢◌, refl, sym, ◌∙◌, ap, Option, none, some, List, [], ◌∷◌, ℕ, filter, ◌==◌,
}
use hawiya_ai.Text.{Text}
use hawiya_ai.Date.{Date}
use hawiya_ai.Models.{Uuid, Person, PersonIdentifier}
use hawiya_ai.Matching.Deterministic.{match}
use hawiya_ai.Matching.Isolation.{match-IsSameRead}
use hawiya_ai.Database.Environment.{Environment}
use hawiya_ai.Database.World.{World}
use hawiya_ai.Database.Reads.{IsSameRead, IsSameTenant}
use hawiya_ai.Database.Search.{Postgres, search_by_name}
use hawiya_ai.Database.Search.Isolation.{search_by_name-IsSameRead}
use hawiya_ai.Database.Growth.{grown-foreign}
use hawiya_ai.Api.Types.{Database, begin}
use hawiya_ai.Api.Conflict.{IsSound}
use hawiya_ai.Api.History.{Call, Event, after, run}
use hawiya_ai.Api.History.Soundness.{after-IsTransition, after-none, after-IsSound}

module _ (env : Environment) (postgres : Postgres) where
  module _ (tenant_id : Uuid) where
    abbrev pub IsForeign : List Event → Type 0
    IsForeign [] = Unit
    IsForeign (e ∷ events) = (e.tenant_id ≢ some tenant_id) × IsForeign events

    -- The tenant's identifiers and persons.
    abbrev own_identifiers : Database → List PersonIdentifier
    own_identifiers db = filter (λ row. row.tenant_id == tenant_id) db.tables.identifiers

    abbrev own_persons : Database → List Person
    own_persons db = filter (λ row. row.tenant_id == tenant_id) db.tables.persons

    abbrev IsSameOwn : Database → Database → Type 0
    IsSameOwn db later =
        (own_identifiers later ≡ own_identifiers db) × (own_persons later ≡ own_persons db)

    after-IsSameOwn :
        (ctx : Option Uuid) (request_id : Option Text) (call : Call) (db : Database)
        → IsSound env db
        → ctx ≢ some tenant_id
        → IsSameOwn db (after env postgres ctx request_id call db)
    after-IsSameOwn none request_id call db sound ne = rw after-none (refl, refl)
    after-IsSameOwn (some other) request_id call db sound ne =
        let t = after-IsTransition env postgres other request_id call db sound in
        (
          grown-foreign _ other _ _ t.identifiers tenant_id (λ e. ne (ap some (sym e))),
          grown-foreign _ other _ _ t.persons tenant_id (λ e. ne (ap some (sym e))),
        )

    run-IsSameOwn :
        (events : List Event) (db : Database)
        → IsSound env db
        → IsForeign events
        → IsSameOwn db (run env postgres events db)
    unfolding run
    run-IsSameOwn [] db sound foreign = (refl, refl)
    run-IsSameOwn (e ∷ events) db sound (ne, foreign) =
        let (i, p) = after-IsSameOwn e.tenant_id e.request_id e.call db sound ne in
        let (i', p') =
          run-IsSameOwn events _
            (after-IsSound env postgres e.tenant_id e.request_id e.call db sound) foreign in
        (i' ∙ i, p' ∙ p)

    module _ (events : List Event) (db : Database) (request_id next_id : Option Text) where
      abbrev before : World
      before = begin (some tenant_id) request_id db

      abbrev later : World
      later = begin (some tenant_id) next_id (run env postgres events db)

      -- In a database whose rows are keyed and whose UUIDs still to be drawn are unused, no sequence
      -- of requests of other tenants, or without a tenant, changes what the tenant's matcher decides
      -- or what the tenant's search finds.
      pub reads-foreign_run :
          IsSound env db
          → IsForeign events
          → ((emirates_id passport_number nationality : Option Text) (dob : Option Date)
              → IsSameRead
                  (match tenant_id emirates_id passport_number nationality dob)
                  before
                  later)
            × ((query : Text) (limit : ℕ)
                → IsSameRead (search_by_name postgres tenant_id query limit) before later)
      reads-foreign_run sound foreign =
          let (i, p) = run-IsSameOwn events db sound foreign in
          let same : IsSameTenant tenant_id before later = record {
            identifiers = sym i;
            persons = sym p;
          } in
          (
            match-IsSameRead tenant_id before later same,
            search_by_name-IsSameRead postgres tenant_id before later same,
          )
