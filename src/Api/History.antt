-- ===== src/Api/History.antt =====
-- Sequences of requests to the routes of src/hawiya/api, each in its own transaction, from the empty
-- database on.
pub mod Soundness
pub mod Links
pub mod Isolation
use hawiya_ai.Prelude.{Bool, Option, none, some, List, [], ◌∷◌}
use hawiya_ai.Text.{Text}
use hawiya_ai.Models.{Uuid}
use hawiya_ai.Extractors.Classifier.{Bytes}
use hawiya_ai.Database.Environment.{Environment}
use hawiya_ai.Database.World.{no_rows}
use hawiya_ai.Database.Search.{Postgres}
use hawiya_ai.Services.Person.{NewPerson}
use hawiya_ai.Api.Types.{Response, Database, transaction}
use hawiya_ai.Api.Documents.{extract_document}
use hawiya_ai.Api.Identity.{resolve_identity}
use hawiya_ai.Api.Persons.{create_person, get_person}
use hawiya_ai.Api.Persons.Search.{PersonSearchRequest, PersonSummary, search_persons}
use hawiya_ai.Api.Persons.Reply.{PersonResponse}
use hawiya_ai.Services.Extraction.{ExtractionResult}
use hawiya_ai.Services.Identity.{ResolveResult}

-- The routes with their arguments.
pub data Call : Type 0 where
  extracts : Bytes → (content_type consumer_request_id : Option Text) → Call
  resolves :
      Bytes → (content_type consumer_request_id : Option Text) → (create_if_missing : Bool) → Call
  creates : NewPerson → Call
  fetches : Uuid → Call
  searches : PersonSearchRequest → Call

pub record Event : Type 0 where
  pub tenant_id : Option Uuid
  pub request_id : Option Text
  pub call : Call

abbrev pub empty : Database
empty = record { tables = no_rows; drawn = 0 }

-- What a route answers.
pub data Answer : Type 0 where
  extraction : Response ExtractionResult → Answer
  resolution : Response ResolveResult → Answer
  person : Response PersonResponse → Answer
  summaries : Response (List PersonSummary) → Answer

abbrev as_answer : {A : Type 0} → (A → Answer) → Option A → Option Answer
as_answer f none = none
as_answer f (some a) = some (f a)

abbrev wrapped : {A : Type 0} → (A → Answer) → Option A × Database → Option Answer × Database
wrapped f r = (as_answer f r.0, r.1)

module _ (env : Environment) (postgres : Postgres) where
  -- A call in its own transaction: its answer, if it does not raise, and the database behind it.
  unfoldable pub handle : Option Uuid → Option Text → Call → Database → Option Answer × Database
  handle tenant_id request_id (extracts payload content_type consumer_request_id) db =
      wrapped extraction (
        transaction tenant_id request_id
          (extract_document env payload content_type consumer_request_id) db)
  handle tenant_id request_id (resolves payload content_type consumer_request_id create) db =
      wrapped resolution (
        transaction tenant_id request_id
          (resolve_identity env payload content_type consumer_request_id create) db)
  handle tenant_id request_id (creates body) db =
      wrapped person (transaction tenant_id request_id (create_person env body) db)
  handle tenant_id request_id (fetches person_uuid) db =
      wrapped person (transaction tenant_id request_id (get_person person_uuid) db)
  handle tenant_id request_id (searches body) db =
      wrapped summaries (transaction tenant_id request_id (search_persons postgres body) db)

  abbrev pub after : Option Uuid → Option Text → Call → Database → Database
  after tenant_id request_id call db = (handle tenant_id request_id call db).1

  unfoldable pub run : List Event → Database → Database
  run [] db = db
  run (e ∷ events) db = run events (after e.tenant_id e.request_id e.call db)
