-- ===== src/Tests/Server.antt =====
-- Witnesses for the server: a route that creates a person whatever it is asked, and one that raises.
use hawiya_ai.Prelude.{ℕ, ◌≤◌, ◌≡◌, refl, Option, none, some, List, [], ◌∷◌, true, arith, length}
use hawiya_ai.Text.{Text}
use hawiya_ai.Date.{Date}
use hawiya_ai.Matching.Deterministic.{match}
use hawiya_ai.Database.Policies.{secured, reads-secured}
use hawiya_ai.Database.Reads.{IsSameRead}
use hawiya_ai.Database.Search.{search_by_name}
use hawiya_ai.Tenancy.Http.{Request, raised, App}
use hawiya_ai.Tenancy.Middleware.{Context}
use hawiya_ai.Tenancy.Stack.{Process, Moment}
use hawiya_ai.Tenancy.Stack
use hawiya_ai.Tenancy.Stack.Unhandled.{Answers, create_app, create_app-Answers}
use hawiya_ai.Api.Types.{Database}
use hawiya_ai.Api.Conflict.{IsSound}
use hawiya_ai.Api.History.{creates}
use hawiya_ai.Api.Server.{Framework, serve, serve_all}
use hawiya_ai.Api.Server.Isolation.{IsIsolated, serve-IsIsolated, started, serve_all-IsSound}
use hawiya_ai.Tests.Sample.{environment, world, tables, body}
use hawiya_ai.Services.Person.{create}
use hawiya_ai.Database.Columns.{fits_person, fits_identifier, fits_name_variant, IsFitting}
use hawiya_ai.Api.Persons.Schema.{is_valid}
use hawiya_ai.Api.Persons.Fitting.{create-IsFitting}
use hawiya_ai.Tests.Tenants.{world-IsReady}
use hawiya_ai.Tests.Search.{postgres}
use hawiya_ai.Tests.Requests.{database, database-IsSound}
use hawiya_ai.Tests.Middleware.{platform, created, context, with_token, moment}

abbrev framework : Framework
framework = record {
  parse_call = λ req. some (creates body);
  unmatched = λ req. created;
  render = λ answer. created;
}

abbrev process : Process Database
process = record {
  limiter = record { default_per_minute = 2; buckets = [] };
  store = [];
  app_state = database;
}

serve-IsIsolated_example :
    IsIsolated environment postgres framework platform 100 with_token database
      (serve environment postgres framework platform 100 moment with_token
        (context, process)).1.app_state
serve-IsIsolated_example =
    serve-IsIsolated environment postgres framework platform 100 moment with_token context process
      refl database-IsSound

abbrev twice : List (Moment × Request)
twice = (moment, with_token) ∷ (moment, with_token) ∷ []

serve_all-IsSound_example :
    IsSound environment
      (serve_all environment postgres framework platform 100 twice
        (started none process.limiter [])).1.app_state
serve_all-IsSound_example =
    serve_all-IsSound environment postgres framework platform 100 twice none process.limiter []

abbrev crashing : App (Context × ℕ)
crashing req state = (raised, state)

abbrev counter : Process ℕ
counter = record { limiter = process.limiter; store = []; app_state = 0 }

create_app-Answers_example :
    Answers platform crashing 100 moment with_token context counter
      (Stack.serve platform crashing 100 moment with_token (context, counter))
      (create_app platform crashing 100 moment with_token (context, counter))
create_app-Answers_example =
    create_app-Answers platform crashing 100 moment with_token context counter

reads-secured_example :
    ((emirates_id passport_number nationality : Option Text) (dob : Option Date)
      → IsSameRead (match 1 emirates_id passport_number nationality dob) world (secured world))
    × ((query : Text) (limit : ℕ)
        → IsSameRead (search_by_name postgres 1 query limit) world (secured world))
reads-secured_example = reads-secured 1 world refl postgres

accepted : is_valid body ≡ true
unfolding is_valid
accepted = refl

tables-IsFitting : IsFitting tables
unfolding fits_person fits_identifier fits_name_variant
tables-IsFitting = record { persons = refl; identifiers = refl; name_variants = refl }

no_arabic_name :
    (name : Text)
    → ◌≡◌ {A = Option Text} none (some name)
    → length (environment.unicode.nfc name) ≤ 255
no_arabic_name name h = absurd (ground arith)

create-IsFitting_example : IsFitting (create environment 1 body world).1.stored
create-IsFitting_example =
    create-IsFitting environment 1 body world world-IsReady accepted no_arabic_name tables-IsFitting
