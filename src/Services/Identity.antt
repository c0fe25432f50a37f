-- ===== src/Services/Identity.antt =====
-- src/hawiya/services/identity_service.py: extract, match, record.
pub mod Reading
pub mod Effect
pub mod Verdicts
pub mod Repeat
pub mod Keys
pub mod Registry
pub mod Link
use hawiya_ai.Services.Identity.Reading.{
  field, confidence_of, parse_iso_date, parse_sex, canonical_en, variants,
}
use hawiya_ai.Prelude.{
  ℕ, ◌≡◌, Bool, true, false, ◌&&◌, Option, none, some, List, [], ◌∷◌, ◌++◌, map, ◌==◌,
  if◌then◌else◌, is_empty, not, filter,
}
use hawiya_ai.Text.{Text, text, text_eq}
use hawiya_ai.Text.Strip.{strip}
use hawiya_ai.Text.Split.{join}
use hawiya_ai.Date.{Date, fromisoformat}
use hawiya_ai.Extractors.Types.{Sex, ProcessingPath}
use hawiya_ai.Extractors.Classifier.{Bytes}
use hawiya_ai.Models.{
  Uuid, Confidence, Confidences, Fields, Ratio, SummaryValue, null, str, uuid, Person,
  PersonIdentifier, IdentifierType, IdentifierStatus, DocumentExtraction, MatchAction, Features,
  MatchDecision, MatchDecisionValue, MatchType, AuditLog,
}
use hawiya_ai.Matching.Types.{MatchResult}
use hawiya_ai.Matching.Deterministic.{match}
use hawiya_ai.Database.Environment.{Environment}
use hawiya_ai.Database.World.{World, Action, pure, modify, ◌>>=◌, ◌>>◌, add_decision}
use hawiya_ai.Database.Repositories.{present, create_identifier, create_person}
use hawiya_ai.Services.Base.{requires_tenant, write_audit}
use hawiya_ai.Services.Extraction.{ExtractionResult, extract}

abbrev pub conf_new_record : Confidence
conf_new_record = 100

pub record ResolveResult : Type 0 where
  pub extraction_id : Uuid
  pub action : MatchAction
  pub person_uuid : Option Uuid
  pub confidence : Confidence
  pub method : Text
  pub fields : Fields

-- `MatchAction.value`.
abbrev pub action_value : MatchAction → Text
action_value MatchAction.auto_matched = text "auto_matched"
action_value MatchAction.suggested_match = text "suggested_match"
action_value MatchAction.new_record = text "new_record"
action_value MatchAction.manual_review = text "manual_review"
action_value MatchAction.no_match_no_create = text "no_match_no_create"

-- `_action_to_decision`.
unfoldable pub action_to_decision : MatchAction → Option MatchDecisionValue
action_to_decision MatchAction.auto_matched = some MatchDecisionValue.auto_merge
action_to_decision MatchAction.suggested_match = some MatchDecisionValue.suggest_merge
action_to_decision MatchAction.manual_review = some MatchDecisionValue.manual_review
action_to_decision MatchAction.no_match_no_create = some MatchDecisionValue.no_match
action_to_decision MatchAction.new_record = some MatchDecisionValue.no_match

-- `_update_extraction_link`: an UPDATE, which sees the stored rows only.
unfoldable pub linked :
    Uuid → Uuid → Option Uuid → MatchAction → DocumentExtraction → DocumentExtraction
linked tenant_id extraction_id person_uuid action row =
    if (row.extraction_id == extraction_id) && (row.tenant_id == tenant_id)
    then record row { person_uuid = person_uuid; match_action = some action }
    else row

unfoldable pub update_extraction_link : Uuid → Uuid → Option Uuid → MatchAction → Action (Unit {0})
update_extraction_link tenant_id extraction_id person_uuid action = modify λ w. record w {
  stored = record (w.stored) {
    extractions = map (linked tenant_id extraction_id person_uuid action) w.stored.extractions;
  };
}

unfoldable pub passport_row : Uuid → Uuid → Fields → Option Confidence → Text → PersonIdentifier
passport_row tenant_id person_uuid fields doc_number_confidence passport_number = record {
  tenant_id = tenant_id;
  person_uuid = person_uuid;
  identifier_type = IdentifierType.passport;
  identifier_value = passport_number;
  issuing_country = present (field (text "issuing_country") fields);
  issue_date = none;
  expiry_date = parse_iso_date (field (text "date_of_expiry") fields);
  is_primary = true;
  source = some (text "extraction");
  confidence = doc_number_confidence;
  status = IdentifierStatus.active;
}

-- `if passport_number: ...`.
unfoldable pub add_passport :
    Uuid → Uuid → Fields → Option Confidence → Option Text → Action (Unit {0})
add_passport tenant_id person_uuid fields doc_number_confidence none = pure tt
add_passport tenant_id person_uuid fields doc_number_confidence (some passport_number) =
    create_identifier
      (passport_row tenant_id person_uuid fields doc_number_confidence passport_number)

abbrev summary_uuid : Option Uuid → SummaryValue
summary_uuid none = null
summary_uuid (some id) = uuid id

abbrev pub add_if_decided :
    Uuid → Option Uuid → Confidence → Features → Option MatchDecisionValue → Action (Unit {0})
add_if_decided tenant_id person_uuid confidence features none = pure tt
add_if_decided tenant_id person_uuid confidence features (some decision) = add_decision (record {
  tenant_id = tenant_id;
  candidate_a = person_uuid;
  candidate_b = none;
  match_type = MatchType.deterministic;
  confidence = confidence;
  features = features;
  decision = decision;
})

unfoldable pub resolve_row :
    Uuid → Text → Uuid → Option Uuid → MatchAction → Confidence → ProcessingPath → AuditLog
resolve_row tenant_id input_hash extraction_id person_uuid action confidence processing_path =
    record {
      tenant_id = tenant_id;
      request_id = [];
      user_id = none;
      endpoint = text "/v1/identity/resolve";
      input_hash = some input_hash;
      output_summary = some (
          (text "extraction_id", uuid extraction_id)
          ∷ (text "person_uuid", summary_uuid person_uuid)
          ∷ (text "action", str (action_value action))
          ∷ []);
      model_versions = some ((text "matcher", text "deterministic-v1") ∷ []);
      confidence = some (record { sum = confidence; count = 1 });
      processing_path = some processing_path;
      decision = some (action_value action);
    }

-- What the matcher, and the creation on a miss, have settled.
pub record Outcome : Type 0 where
  pub person_uuid : Option Uuid
  pub action : MatchAction
  pub confidence : Confidence

abbrev pub is_miss : MatchAction → Bool
is_miss MatchAction.no_match_no_create = true
is_miss MatchAction.auto_matched = false
is_miss MatchAction.suggested_match = false
is_miss MatchAction.new_record = false
is_miss MatchAction.manual_review = false

-- Steps 5 to 7 of `resolve`, and its result.
unfoldable pub record_outcome :
    Uuid → Text → ExtractionResult → MatchResult → Outcome → Action ResolveResult
record_outcome tenant_id input_hash extraction match_result outcome = do
  update_extraction_link tenant_id extraction.extraction_id outcome.person_uuid outcome.action
  add_if_decided tenant_id outcome.person_uuid outcome.confidence match_result.features
      (action_to_decision outcome.action)
  write_audit (
      resolve_row tenant_id input_hash extraction.extraction_id outcome.person_uuid outcome.action
        outcome.confidence extraction.processing_path)
  pure (record {
    extraction_id = extraction.extraction_id;
    action = outcome.action;
    person_uuid = outcome.person_uuid;
    confidence = outcome.confidence;
    method = match_result.method;
    fields = extraction.fields;
  })

module _ (env : Environment) where
  -- `_create_person_from_extraction`.
  unfoldable pub create_person_from_extraction :
      Uuid
      → Fields
      → Option Date
      → (nationality passport_number : Option Text) → Option Confidence
      → Action Uuid
  create_person_from_extraction tenant_id fields dob nationality passport_number
        doc_number_confidence =
      do
        let name = canonical_en fields
        person ←
            create_person env tenant_id none name dob nationality
              (parse_sex (field (text "sex") fields)) (variants name)
        add_passport tenant_id person.person_uuid fields doc_number_confidence
            (present passport_number)
        pure person.person_uuid

  -- Step 4 of `resolve`, on its test.
  unfoldable pub create_on_miss :
      Uuid
      → ExtractionResult
      → Option Date
      → (nationality passport_number : Option Text) → MatchResult
      → Bool
      → Action Outcome
  create_on_miss tenant_id extraction dob nationality passport_number match_result false =
      pure (record {
        person_uuid = match_result.person_uuid;
        action = match_result.action;
        confidence = match_result.confidence;
      })
  create_on_miss tenant_id extraction dob nationality passport_number match_result true = do
    person_uuid ←
        create_person_from_extraction tenant_id extraction.fields dob nationality passport_number
          (confidence_of (text "document_number") extraction.confidence_per_field)
    pure (record {
      person_uuid = some person_uuid;
      action = MatchAction.new_record;
      confidence = conf_new_record;
    })

  -- Steps 2 to 7 of `resolve`, on the extraction of step 1.
  unfoldable pub resolve_extraction : Uuid → Text → Bool → ExtractionResult → Action ResolveResult
  resolve_extraction tenant_id input_hash create_if_missing extraction = do
    let passport_number = present (field (text "document_number") extraction.fields)
    let nationality = present (field (text "nationality") extraction.fields)
    let dob = parse_iso_date (field (text "date_of_birth") extraction.fields)
    match_result ← match tenant_id none passport_number nationality dob
    outcome ←
        create_on_miss tenant_id extraction dob nationality passport_number match_result
          (is_miss match_result.action && create_if_missing)
    record_outcome tenant_id input_hash extraction match_result outcome

  unfoldable pub resolve_body : Bytes → Text → Option Text → Bool → Uuid → Action ResolveResult
  resolve_body payload content_type consumer_request_id create_if_missing tenant_id = do
    extraction ← extract env tenant_id payload content_type consumer_request_id
    resolve_extraction tenant_id (env.sha256 payload) create_if_missing extraction

  -- `IdentityService.resolve`.
  unfoldable pub resolve : Uuid → Bytes → Text → Option Text → Bool → Action ResolveResult
  resolve tenant_id payload content_type consumer_request_id create_if_missing =
      requires_tenant (resolve_body payload content_type consumer_request_id create_if_missing)
        tenant_id
