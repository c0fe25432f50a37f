-- ===== src/Tests/History.antt =====
-- Witnesses for sequences of requests, and for the registry of identifiers.
use hawiya_ai.Prelude.{ℕ, ◌≢◌, refl, Option, none, some, List, [], ◌∷◌, arith, true}
use hawiya_ai.Text.{Text, text, text_eq}
use hawiya_ai.Date.{Date}
use hawiya_ai.Models.{IdentifierType}
use hawiya_ai.Matching.Deterministic.{match}
use hawiya_ai.Database.Reads.{IsSameRead}
use hawiya_ai.Database.Repositories.{find_active, is_active_as}
use hawiya_ai.Database.Search.{search_by_name}
use hawiya_ai.Database.Steps.{IsOpen}
use hawiya_ai.Services.Person.{create}
use hawiya_ai.Services.Person.Registry as PersonRegistry
use hawiya_ai.Services.Identity.{resolve_extraction}
use hawiya_ai.Services.Identity.Registry as IdentityRegistry
use hawiya_ai.Api.Types.{begin, transaction}
use hawiya_ai.Api.Persons.{get_person}
use hawiya_ai.Api.Persons.Lookup.{IsFetch, get_person-IsFetch}
use hawiya_ai.Api.History.{Event, resolves, creates, run}
use hawiya_ai.Api.History.Links.{Finds, find_active-run}
use hawiya_ai.Api.History.Isolation.{reads-foreign_run}
use hawiya_ai.Tests.Sample.{environment, world, body, identifier, tables-IsKeyed, tables-IsFresh}
use hawiya_ai.Tests.Search.{postgres}
use hawiya_ai.Tests.Tenants.{world-IsReady}
use hawiya_ai.Tests.Requests.{jpeg, stranger, hash, database, database-IsSound}

-- Another tenant creates a person and shows a passport.
abbrev foreign : List Event
foreign =
    record { tenant_id = some 2; request_id = none; call = creates body }
    ∷ record { tenant_id = some 2; request_id = none; call = resolves jpeg none none true }
    ∷ []

finds :
    Finds environment postgres 1 IdentifierType.passport (text "L898902C3") identifier none database
unfolding find_active is_active_as text_eq
finds = refl

find_active-run_example :
    Finds environment postgres 1 IdentifierType.passport
      (text "L898902C3")
      identifier
      (some (text "r2"))
      (run environment postgres foreign database)
find_active-run_example =
    find_active-run environment postgres 1 IdentifierType.passport (text "L898902C3") identifier
      foreign database none (some (text "r2")) database-IsSound finds

other_tenant : ◌≢◌ {A = Option ℕ} (some 2) (some 1)
other_tenant h = ground arith

reads-foreign_run_example :
    ((emirates_id passport_number nationality : Option Text) (dob : Option Date)
      → IsSameRead
          (match 1 emirates_id passport_number nationality dob)
          (begin (some 1) none database)
          (begin (some 1) none (run environment postgres foreign database)))
    × ((query : Text) (limit : ℕ)
        → IsSameRead
            (search_by_name postgres 1 query limit)
            (begin (some 1) none database)
            (begin (some 1) none (run environment postgres foreign database)))
reads-foreign_run_example =
    reads-foreign_run environment postgres 1 foreign database none none database-IsSound
      (other_tenant, (other_tenant, tt))

create-Refines_example :
    PersonRegistry.Refines environment 1 body world world-IsReady
      (PersonRegistry.way environment 1 body world world-IsReady)
      (create environment 1 body world)
create-Refines_example = PersonRegistry.create-Refines environment 1 body world world-IsReady

world-IsOpen : IsOpen environment world
world-IsOpen = record {
  no_persons = refl;
  no_identifiers = refl;
  keyed = tables-IsKeyed;
  fresh = tables-IsFresh;
}

resolve_extraction-Refines_example :
    IdentityRegistry.Refines environment 1 hash stranger world world-IsOpen
      (IdentityRegistry.known environment 1 hash stranger world world-IsOpen)
      true
      (resolve_extraction environment 1 hash true stranger world)
resolve_extraction-Refines_example =
    IdentityRegistry.resolve_extraction-Refines environment 1 hash stranger world world-IsOpen true

get_person-IsFetch_example :
    IsFetch environment 1 database database-IsSound
      (some (text "r1"))
      0
      (transaction (some 1) (some (text "r1")) (get_person 0) database)
get_person-IsFetch_example =
    get_person-IsFetch environment 1 database database-IsSound (some (text "r1")) 0
