-- ===== src/Tests/Requests.antt =====
-- Witnesses for the pipelines and the routes.
use hawiya_ai.Prelude.{ℕ, ◌≡◌, refl, true, ◌&&◌, Option, none, some, List, [], ◌∷◌, ok, is_some}
use hawiya_ai.Text.{Text, text, text_eq}
use hawiya_ai.Models.{MatchAction}
use hawiya_ai.Extractors.Types.{DocumentType, ChecksumStatus, ProcessingPath}
use hawiya_ai.Matching.Types.{MatchResult}
use hawiya_ai.Matching.Deterministic.{no_match_result}
use hawiya_ai.Matching.Decision.{decide}
use hawiya_ai.Database.World.{World, commit}
use hawiya_ai.Database.Repositories.{is_active_as}
use hawiya_ai.Services.Extraction.{ExtractionResult}
use hawiya_ai.Services.Identity.{ResolveResult, resolve_extraction, is_miss}
use hawiya_ai.Services.Identity.Reading.{field}
use hawiya_ai.Services.Identity.Effect.{
  resolved, match_result, document_number, nationality, date_of_birth, new_person,
}
use hawiya_ai.Services.Identity.Repeat.{IsKnown, resolve-twice}
use hawiya_ai.Services.Identity.Link.{linked_rows, creates, resolve-link}
use hawiya_ai.Api.Types.{Response, reply, error, Database, begin, transaction}
use hawiya_ai.Api.Documents.{extract_document}
use hawiya_ai.Api.Documents.Answers.{IsAnswered, extract_document-answers}
use hawiya_ai.Api.Persons.{create_person, get_person}
use hawiya_ai.Api.Persons.Fetch.{get_person-create_person}
use hawiya_ai.Api.Persons.Reply.{PersonResponse}
use hawiya_ai.Api.Audit.{IsAudited, extract_document-IsAudited}
use hawiya_ai.Api.Conflict.{IsSound, conflict, create_person-conflict}
use hawiya_ai.Tests.Sample.{
  environment, environment-IsTd3Adapter, world, tables, tables-IsKeyed, tables-IsFresh, body,
}
use hawiya_ai.Tests.Tenants.{body-miss}

-- The first bytes of a JPEG.
abbrev pub jpeg : List ℕ
jpeg = 0xff ∷ 0xd8 ∷ 0xff ∷ 0xe0 ∷ []

abbrev jpeg_type : Text
jpeg_type = text "image/jpeg"

-- An extraction with a number that is new to the tenant.
abbrev pub stranger : ExtractionResult
stranger = record {
  extraction_id = 5;
  document_type = DocumentType.passport;
  fields =
      (text "document_number", some (text "P1"))
      ∷ (text "nationality", some (text "UTO"))
      ∷ (text "date_of_birth", some (text "1974-08-12"))
      ∷ [];
  confidence_per_field = [];
  checksum_status = ChecksumStatus.all_pass;
  processing_path = ProcessingPath.mrz_only;
  processing_time_ms = 7;
}

abbrev pub hash : Text
hash = text "e3b0c442"

resolve-link_example :
    (commit (resolve_extraction environment 1 hash true stranger world).1).extractions
    ≡ linked_rows environment 1 hash stranger world (creates environment 1 hash stranger world true)
resolve-link_example = resolve-link environment 1 hash stranger world tables-IsKeyed true

stranger-miss : is_miss (match_result environment 1 hash stranger world).action ≡ true
unfolding decide is_active_as text_eq no_match_result field
stranger-miss = refl

stranger-number : document_number environment 1 hash stranger world ≡ some (text "P1")
unfolding field text_eq
stranger-number = refl

-- The next request, on the tables that the first one committed.
abbrev next_world : World
next_world = record world {
  stored = commit (resolved environment 1 hash stranger world true).1;
  drawn = 2;
}

resolve-twice_example :
    ((r : ResolveResult) × (resolve_extraction environment 1 hash true stranger world
        ≡ (ok r, (resolved environment 1 hash stranger world true).1))
      × (r.action ≡ MatchAction.new_record)
      × (r.person_uuid ≡ some (new_person environment 1 hash stranger world).person_uuid))
    × ((r : ResolveResult) × ((resolve_extraction environment 1 hash true stranger next_world).0
          ≡ ok r)
        × IsKnown r (new_person environment 1 hash stranger world).person_uuid (
            is_some (nationality environment 1 hash stranger world)
            && is_some (date_of_birth environment 1 hash stranger world)))
resolve-twice_example =
    resolve-twice environment 1 hash stranger world tables-IsKeyed tables-IsFresh refl refl
      stranger-miss (text "P1") stranger-number stranger refl next_world refl hash true

abbrev pub database : Database
database = record { tables = tables; drawn = 1 }

pub database-IsSound : IsSound environment database
database-IsSound = record { keyed = tables-IsKeyed; fresh = tables-IsFresh }

extract_document-IsAudited_example :
    IsAudited database
      (transaction (some 1) none (extract_document environment jpeg (some jpeg_type) none) database)
extract_document-IsAudited_example =
    extract_document-IsAudited 1 none database environment environment-IsTd3Adapter jpeg
      (some jpeg_type) none

abbrev first : Option (Response PersonResponse) × Database
first = transaction (some 1) (some (text "r1")) (create_person environment body) database

create_person-conflict_example :
    (p : PersonResponse) × (m : MatchResult) × (first.0 ≡ some (reply p))
    × (transaction (some 1) none (create_person environment body) first.1
        ≡ (some (error (conflict none m)), first.1))
    × (m.person_uuid ≡ some p.person_uuid)
create_person-conflict_example =
    create_person-conflict environment 1 body database database-IsSound (some (text "r1")) body-miss
      refl none

get_person-create_person_example :
    (p : PersonResponse) × (first.0 ≡ some (reply p))
    × (transaction (some 1) none (get_person p.person_uuid) first.1 ≡ (some (reply p), first.1))
get_person-create_person_example =
    get_person-create_person environment 1 body database database-IsSound (some (text "r1")) none
      body-miss

extract_document-answers_example :
    IsAnswered
      (environment.read_mrz jpeg jpeg_type)
      (extract_document environment jpeg (some jpeg_type) none (begin (some 1) none database)).0
extract_document-answers_example =
    extract_document-answers environment environment-IsTd3Adapter jpeg (some jpeg_type) none 1 none
      database
