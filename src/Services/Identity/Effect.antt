-- ===== src/Services/Identity/Effect.antt =====
-- What `IdentityService.resolve` of src/hawiya/services/identity_service.py does with an extraction, in
-- closed form.
use hawiya_ai.Prelude.{
  ◌≡◌, refl, Bool, true, false, ◌&&◌, Option, none, some, List, [], ◌∷◌, ◌++◌, map, Result, ok,
}
use hawiya_ai.Text.{Text, text}
use hawiya_ai.Date.{Date}
use hawiya_ai.Models.{
  Uuid, Person, PersonIdentifier, MatchAction, MatchDecision, MatchDecisionValue, MatchType,
  AuditLog,
}
use hawiya_ai.Matching.Types.{MatchResult}
use hawiya_ai.Matching.Decision.{decide, match-eq}
use hawiya_ai.Database.Environment.{Environment}
use hawiya_ai.Database.World.{World, Failure, add_decision, add_audit, add_identifier}
use hawiya_ai.Database.Keys.{IsKeyed}
use hawiya_ai.Database.Repositories.{present, create_identifier}
use hawiya_ai.Database.Effects.{made_person, after_person, create_person-eq}
use hawiya_ai.Services.Base.{write_audit, or_default}
use hawiya_ai.Services.Extraction.{ExtractionResult}
use hawiya_ai.Services.Identity.{
  ResolveResult, Outcome, action_to_decision, linked, update_extraction_link, passport_row,
  add_passport, resolve_row, is_miss, conf_new_record, create_person_from_extraction,
  create_on_miss, record_outcome, resolve_extraction,
}
use hawiya_ai.Services.Identity.Reading.{
  field, confidence_of, parse_iso_date, parse_sex, canonical_en, variants,
}

-- `_action_to_decision` is total, although its result is optional.
abbrev pub decision_of : MatchAction → MatchDecisionValue
decision_of MatchAction.auto_matched = MatchDecisionValue.auto_merge
decision_of MatchAction.suggested_match = MatchDecisionValue.suggest_merge
decision_of MatchAction.manual_review = MatchDecisionValue.manual_review
decision_of MatchAction.no_match_no_create = MatchDecisionValue.no_match
decision_of MatchAction.new_record = MatchDecisionValue.no_match

action_to_decision-eq : (a : MatchAction) → action_to_decision a ≡ some (decision_of a)
unfolding action_to_decision
action_to_decision-eq MatchAction.auto_matched = refl
action_to_decision-eq MatchAction.suggested_match = refl
action_to_decision-eq MatchAction.manual_review = refl
action_to_decision-eq MatchAction.no_match_no_create = refl
action_to_decision-eq MatchAction.new_record = refl

module _ (tenant_id : Uuid) (input_hash : Text) (x : ExtractionResult) (m : MatchResult)
    (o : Outcome) (w : World) where
  abbrev pub decision_row : MatchDecision
  decision_row = record {
    tenant_id = tenant_id;
    candidate_a = o.person_uuid;
    candidate_b = none;
    match_type = MatchType.deterministic;
    confidence = o.confidence;
    features = m.features;
    decision = decision_of o.action;
  }

  abbrev pub outcome_audit : AuditLog
  outcome_audit =
      record (resolve_row tenant_id input_hash x.extraction_id o.person_uuid o.action o.confidence
        x.processing_path) { request_id = or_default w.request_id }

  abbrev pub outcome_result : ResolveResult
  outcome_result = record {
    extraction_id = x.extraction_id;
    action = o.action;
    person_uuid = o.person_uuid;
    confidence = o.confidence;
    method = m.method;
    fields = x.fields;
  }

  abbrev pub after_outcome : World
  after_outcome = record w {
    stored = record (w.stored) {
      extractions =
          map (linked tenant_id x.extraction_id o.person_uuid o.action) w.stored.extractions;
    };
    pending = record (w.pending) {
      decisions = w.pending.decisions ++ decision_row ∷ [];
      audit_log = w.pending.audit_log ++ outcome_audit ∷ [];
    };
  }

  pub record_outcome-eq :
      record_outcome tenant_id input_hash x m o w ≡ (ok outcome_result, after_outcome)
  unfolding record_outcome update_extraction_link write_audit add_audit add_decision
  record_outcome-eq = rw (action_to_decision-eq o.action) refl

module _ (env : Environment) (tenant_id : Uuid) (input_hash : Text) (x : ExtractionResult)
    (w : World) where
  abbrev pub document_number : Option Text
  document_number = present (field (text "document_number") x.fields)

  abbrev pub nationality : Option Text
  nationality = present (field (text "nationality") x.fields)

  abbrev pub date_of_birth : Option Date
  date_of_birth = parse_iso_date (field (text "date_of_birth") x.fields)

  -- The decision of the matcher, which gets no Emirates ID.
  abbrev pub match_result : MatchResult
  match_result = decide w.stored tenant_id none document_number nationality date_of_birth

  -- The person that a miss creates, and the state then.
  abbrev pub new_person : Person
  new_person =
      made_person env tenant_id none (canonical_en x.fields) date_of_birth nationality
        (parse_sex (field (text "sex") x.fields)) (variants (canonical_en x.fields)) w

  abbrev after_new_person : World
  after_new_person =
      after_person env tenant_id none (canonical_en x.fields) date_of_birth nationality
        (parse_sex (field (text "sex") x.fields)) (variants (canonical_en x.fields)) w

  abbrev pub passport_rows : Option Text → List PersonIdentifier
  passport_rows none = []
  passport_rows (some n) =
      passport_row tenant_id new_person.person_uuid x.fields
        (confidence_of (text "document_number") x.confidence_per_field) n
      ∷ []

  abbrev with_rows : List PersonIdentifier → World
  with_rows rows = record after_new_person {
    pending = record (after_new_person.pending) { identifiers = rows };
  }

  abbrev pub after_create : World
  after_create = with_rows (passport_rows (present document_number))

  add_passport-eq :
      (o : Option Text)
      → add_passport tenant_id new_person.person_uuid x.fields
          (confidence_of (text "document_number") x.confidence_per_field)
          o
          after_new_person
        ≡ (ok tt, with_rows (passport_rows o))
  unfolding add_passport create_identifier add_identifier passport_row
  add_passport-eq none = refl
  add_passport-eq (some n) = refl

  create_from-eq :
      create_person_from_extraction env tenant_id x.fields date_of_birth nationality document_number
        (confidence_of (text "document_number") x.confidence_per_field)
        w
      ≡ (ok new_person.person_uuid, after_create)
  unfolding create_person_from_extraction
  create_from-eq =
      rw
        (
          create_person-eq env tenant_id none (canonical_en x.fields) date_of_birth nationality
              (parse_sex (field (text "sex") x.fields)) (variants (canonical_en x.fields)) w,
          add_passport-eq (present document_number),
        )
        refl

  abbrev pub matched : Outcome
  matched = record {
    person_uuid = match_result.person_uuid;
    action = match_result.action;
    confidence = match_result.confidence;
  }

  abbrev pub created : Outcome
  created = record {
    person_uuid = some new_person.person_uuid;
    action = MatchAction.new_record;
    confidence = conf_new_record;
  }

  abbrev pub settled : Bool → Outcome × World
  settled true = (created, after_create)
  settled false = (matched, w)

  create_on_miss-eq :
      (b : Bool)
      → create_on_miss env tenant_id x date_of_birth nationality document_number match_result b w
        ≡ (ok (settled b).0, (settled b).1)
  unfolding create_on_miss
  create_on_miss-eq true = rw create_from-eq refl
  create_on_miss-eq false = refl

  -- The result of the pipeline behind the extraction, and the state that it leaves behind.
  abbrev pub resolved : Bool → Result Failure ResolveResult × World
  resolved b =
      let (o, v) = settled b in
      (
        ok (outcome_result tenant_id input_hash x match_result o v),
        after_outcome tenant_id input_hash x match_result o v,
      )

  -- Over keyed rows, behind an extraction, the pipeline never raises. If the matcher misses and a
  -- creation is asked for, it creates the person and records a new record; otherwise it records the
  -- outcome of the matcher and creates nothing. Recording means the link, one decision row and one
  -- audit row.
  pub resolve_extraction-eq :
      IsKeyed w.stored
      → (create_if_missing : Bool)
      → resolve_extraction env tenant_id input_hash create_if_missing x w
        ≡ resolved (is_miss match_result.action && create_if_missing)
  unfolding resolve_extraction
  resolve_extraction-eq k create_if_missing =
      rw
        (
          match-eq w k tenant_id none document_number nationality date_of_birth,
          create_on_miss-eq (is_miss match_result.action && create_if_missing),
        )
        (record_outcome-eq tenant_id input_hash x match_result _ _)
