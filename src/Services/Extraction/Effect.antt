-- ===== src/Services/Extraction/Effect.antt =====
-- What `ExtractionService.extract` of src/hawiya/services/extraction_service.py leaves behind.
use hawiya_ai.Prelude.{
  ℕ, ◌+◌, ◌≡◌, refl, sym, ◌∙◌, ap, Bool, true, false, Option, none, some, List, [], ◌∷◌, ◌++◌,
  Result, ok, err, err_injective, arith, length, if◌then◌else◌,
}
use mathlib.Core.Path.{subst}
use hawiya_ai.Text.{Text}
use hawiya_ai.Models.{Uuid, DocumentExtraction, AuditLog}
use hawiya_ai.Extractors.Types.{
  Attempt, Error, mrz_format, value_error, assertion_error, no_mrz_found, ocr_unavailable,
  unsupported_document, DocumentType, ParsedMrz,
}
use hawiya_ai.Extractors.Classifier.{Bytes, classify, classify-unsupported}
use hawiya_ai.Extractors.Mrz.{parse_td3}
use hawiya_ai.Extractors.Readable.{is_readable}
use hawiya_ai.Extractors.ParseResult.{parse_td3-eq}
use hawiya_ai.Database.Environment.{Environment}
use hawiya_ai.Database.World.{
  World, Action, Failure, extraction_error, possible_duplicate, multiple_results, missing_tenant,
  cross_tenant, ◌>>=◌, continue, add_extraction, add_audit,
}
use hawiya_ai.Database.Repositories.{draw_uuid}
use hawiya_ai.Services.Base.{lift, write_audit, or_default}
use hawiya_ai.Services.Base.Tenancy.{requires_tenant-own}
use hawiya_ai.Services.Extraction.{
  ExtractionResult, caught, failure_row, success_row, overall_confidence, audit_failure, read_lines,
  record_extraction, extract_body, extract,
}

-- The OCR adapter hands over lines of 44 characters, as `PassportEyeAdapter` does.
pub record IsTd3Adapter (env : Environment) : Type 0 where
  pub lengths :
      (payload : Bytes) (content_type line1 line2 : Text)
      → env.read_mrz payload content_type ≡ ok (line1, line2)
      → (length line1 ≡ 44) × (length line2 ≡ 44)

-- The rows with one more, if there is one.
abbrev pub also : {A : Type 0} → List A → Option A → List A
also rows none = rows
also rows (some row) = rows ++ row ∷ []

value_error-uncaught : (e : Error) → e ≡ value_error → caught e ≡ none
unfolding caught
value_error-uncaught e h = ap caught h

unsupported-uncaught : (e : Error) → e ≡ unsupported_document → caught e ≡ none
unfolding caught
unsupported-uncaught e h = ap caught h

module _ (tenant_id : Uuid) (input_hash : Text) (consumer_request_id : Option Text)
    (w : World) where
  -- The rows that stand for a result.
  abbrev pub extraction_row : Result Failure ExtractionResult → Option DocumentExtraction
  extraction_row (err e) = none
  extraction_row (ok result) = some (record {
    extraction_id = result.extraction_id;
    tenant_id = tenant_id;
    consumer_request_id = consumer_request_id;
    input_hash = input_hash;
    document_type = result.document_type;
    extracted_data = result.fields;
    confidence_per_field = result.confidence_per_field;
    checksum_status = result.checksum_status;
    processing_path = result.processing_path;
    processing_time_ms = result.processing_time_ms;
    person_uuid = none;
    match_action = none;
  })

  abbrev stamped : AuditLog → AuditLog
  stamped row = record row { request_id = or_default w.request_id }

  abbrev failure_audit : Option (Text × Text) → Option AuditLog
  failure_audit none = none
  failure_audit (some description) = some (stamped (failure_row tenant_id input_hash description))

  abbrev pub audit_row : Result Failure ExtractionResult → Option AuditLog
  audit_row (ok result) = some (
      stamped (
        success_row tenant_id input_hash result.extraction_id result.checksum_status
          (overall_confidence result.confidence_per_field)))
  audit_row (err (extraction_error e)) = failure_audit (caught e)
  audit_row (err (possible_duplicate m)) = none
  audit_row (err multiple_results) = none
  audit_row (err missing_tenant) = none
  audit_row (err cross_tenant) = none

  abbrev uuids_drawn : Result Failure ExtractionResult → ℕ
  uuids_drawn (ok result) = w.drawn + 1
  uuids_drawn (err e) = w.drawn

  abbrev pub after_extraction : Result Failure ExtractionResult → World
  after_extraction r = record w {
    pending = record (w.pending) {
      extractions = also w.pending.extractions (extraction_row r);
      audit_log = also w.pending.audit_log (audit_row r);
    };
    drawn = uuids_drawn r;
  }

  module _ (env : Environment) where
    abbrev pub after_lines :
        DocumentType → (Text × Text → Attempt ParsedMrz) → Text × Text → Action ExtractionResult
    after_lines document_type p lines = do
      mrz ← lift (p lines)
      record_extraction env tenant_id input_hash consumer_request_id document_type mrz

    abbrev pub stages :
        Attempt DocumentType
        → Attempt (Text × Text)
        → (Text × Text → Attempt ParsedMrz)
        → Action ExtractionResult
    stages c l p = do
      document_type ← lift c
      lines ← read_lines tenant_id input_hash l
      after_lines document_type p lines

    abbrev IsAccounted : Result Failure ExtractionResult × World → Type 0
    IsAccounted r = r.1 ≡ after_extraction r.0

    unread-eq :
        {A : Type 0} (e : Error)
        → audit_failure {A = A} tenant_id input_hash e (caught e) w
          ≡ (err (extraction_error e), after_extraction (err (extraction_error e)))
    unfolding audit_failure write_audit add_audit caught
    unread-eq (mrz_format line size) = refl
    unread-eq value_error = refl
    unread-eq assertion_error = refl
    unread-eq unsupported_document = refl
    unread-eq (no_mrz_found message) = refl
    unread-eq (ocr_unavailable message) = refl

    raised : (e : Error) → caught e ≡ none → IsAccounted (err (extraction_error e), w)
    raised e h =
        ap
          (λ o. record w {
            pending = record (w.pending) { audit_log = also w.pending.audit_log (failure_audit o) };
          })
          (sym h)

    abbrev recorded : DocumentType → Attempt ParsedMrz → Result Failure ExtractionResult × World
    recorded document_type x =
        (lift x >>= record_extraction env tenant_id input_hash consumer_request_id document_type) w

    recorded-eq :
        (document_type : DocumentType) (x : Attempt ParsedMrz)
        → ((e : Error) → x ≡ err e → e ≡ value_error)
        → (recorded document_type x).1 ≡ after_extraction (recorded document_type x).0
    unfolding lift record_extraction write_audit add_extraction add_audit draw_uuid
    recorded-eq document_type (ok p) h = refl
    recorded-eq document_type (err e) h = raised e (value_error-uncaught e (h e refl))

    stages-eq :
        (c : Attempt DocumentType) (l : Attempt (Text × Text)) (p : Text × Text → Attempt ParsedMrz)
        → ((e : Error) → c ≡ err e → e ≡ unsupported_document)
        → ((lines : Text × Text) (e : Error) → l ≡ ok lines → p lines ≡ err e → e ≡ value_error)
        → (stages c l p w).1 ≡ after_extraction (stages c l p w).0
    unfolding lift read_lines
    stages-eq (err e) l p hc hp = raised e (unsupported-uncaught e (hc e refl))
    stages-eq (ok document_type) (err e) p hc hp =
        subst IsAccounted (sym (ap (continue (after_lines document_type p)) (unread-eq e))) refl
    stages-eq (ok document_type) (ok lines) p hc hp =
        recorded-eq document_type (p lines) (λ e. hp lines e refl)

-- A parse of two lines of 44 characters raises nothing but `ValueError`.
pub parse-value_error :
    (b : Bool) (p : ParsedMrz) (e : Error)
    → Path (Attempt ParsedMrz) (if b then ok p else err value_error) (err e)
    → e ≡ value_error
parse-value_error true p e h = absurd (ground arith)
parse-value_error false p e h = sym (err_injective h)

module _ (env : Environment) (adapter : IsTd3Adapter env) (tenant_id : Uuid) (payload : Bytes)
    (content_type : Text) (consumer_request_id : Option Text) (w : World)
    (ctx : w.tenant_id ≡ some tenant_id) where
  abbrev pub parse_lines : Text × Text → Attempt ParsedMrz
  parse_lines lines = parse_td3 env.unicode env.this_year lines.0 lines.1

  abbrev pub staged : Result Failure ExtractionResult × World
  staged =
      stages tenant_id (env.sha256 payload) consumer_request_id w env (classify payload)
        (env.read_mrz payload content_type) parse_lines w

  pub extract-stages : extract env tenant_id payload content_type consumer_request_id w ≡ staged
  unfolding extract extract_body
  extract-stages =
      requires_tenant-own (extract_body env payload content_type consumer_request_id) tenant_id w
        ctx

  pub extract-accounts :
      (extract env tenant_id payload content_type consumer_request_id w).1
      ≡ after_extraction tenant_id
          (env.sha256 payload)
          consumer_request_id
          w
          (extract env tenant_id payload content_type consumer_request_id w).0
  extract-accounts =
      subst (IsAccounted tenant_id (env.sha256 payload) consumer_request_id w env)
        (sym extract-stages)
        (stages-eq tenant_id (env.sha256 payload) consumer_request_id w env (classify payload)
          (env.read_mrz payload content_type) parse_lines (classify-unsupported payload)
          (λ lines e h k.
            let (a, b) = adapter.lengths payload content_type lines.0 lines.1 h in
            parse-value_error (is_readable (lines.0 ++ lines.1)) _ e
              (sym (parse_td3-eq env.unicode env.this_year lines.0 lines.1 a b) ∙ k)))
