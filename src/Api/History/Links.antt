-- ===== src/Api/History/Links.antt =====
-- What an identifier leads to behind any sequence of requests.
use hawiya_ai.Prelude.{
  ◌≡◌, sym, ◌∙◌, ap, Option, none, some, List, [], ◌∷◌, ok, ok_injective, head?, filter,
}
use hawiya_ai.Text.{Text}
use hawiya_ai.Models.{Uuid, PersonIdentifier, IdentifierType}
use hawiya_ai.Matching.Decision.{lookup-eq}
use hawiya_ai.Database.Environment.{Environment}
use hawiya_ai.Database.Repositories.{find_active, is_active_as}
use hawiya_ai.Database.Search.{Postgres}
use hawiya_ai.Database.Growth.{grown-first}
use hawiya_ai.Api.Types.{Database, begin}
use hawiya_ai.Api.Conflict.{IsSound}
use hawiya_ai.Api.History.{Call, Event, after, run}
use hawiya_ai.Api.History.Soundness.{after-IsTransition, after-none, after-IsSound, keeps-IsSound}

module _ (env : Environment) (postgres : Postgres) where
  module _ (tenant_id : Uuid) (ty : IdentifierType) (value : Text) (row : PersonIdentifier) where
    -- The first row that the key leads to.
    abbrev Leads : Database → Type 0
    Leads db = head? (filter (is_active_as tenant_id ty value) db.tables.identifiers) ≡ some row

    after-Leads :
        (ctx : Option Uuid) (request_id : Option Text) (call : Call) (db : Database)
        → IsSound env db
        → Leads db
        → Leads (after env postgres ctx request_id call db)
    after-Leads none request_id call db sound h = rw after-none h
    after-Leads (some other) request_id call db sound h =
        grown-first _ other _ _
          (after-IsTransition env postgres other request_id call db sound).identifiers
          (is_active_as tenant_id ty value) row h

    run-Leads :
        (events : List Event) (db : Database)
        → IsSound env db
        → Leads db
        → Leads (run env postgres events db)
    unfolding run
    run-Leads [] db sound h = h
    run-Leads (e ∷ events) db sound h =
        run-Leads events _ (after-IsSound env postgres e.tenant_id e.request_id e.call db sound)
          (after-Leads e.tenant_id e.request_id e.call db sound h)

    abbrev pub Finds : Option Text → Database → Type 0
    Finds request_id db =
        find_active tenant_id ty value (begin (some tenant_id) request_id db)
        ≡ (ok (some row), begin (some tenant_id) request_id db)

    -- In a database whose rows are keyed and whose UUIDs still to be drawn are unused, the active
    -- identifier that is found under a tenant, a type and a value is found there after any sequence of
    -- requests of any tenants, too.
    pub find_active-run :
        (events : List Event) (db : Database) (request_id next_id : Option Text)
        → IsSound env db
        → Finds request_id db
        → Finds next_id (run env postgres events db)
    find_active-run events db request_id next_id sound finds =
        let e =
          lookup-eq (begin (some tenant_id) request_id db) sound.keyed tenant_id ty (some value) in
        let e' =
          lookup-eq (begin (some tenant_id) next_id (run env postgres events db))
            (keeps-IsSound env postgres events db sound).keyed tenant_id ty (some value) in
        e'
        ∙ ap (λ o. (ok o, begin (some tenant_id) next_id (run env postgres events db)))
            (run-Leads events db sound (ok_injective (ap (λ r. r.0) (sym e ∙ finds))))
