-- ===== src/Api/Audit.antt =====
-- The audit trail that a call of `POST /v1/documents/extract` leaves in the database.
use hawiya_ai.Prelude.{
  ℕ, ◌+◌, ◌≡◌, refl, sym, ap, Bool, true, false, ◌||◌, Option, none, some, List, [], ◌∷◌, ◌++◌,
  Result, ok, err, arith, length, length-append, ltb, is_empty, if◌then◌else◌, ◌==◌,
}
use mathlib.Core.Path.{subst}
use hawiya_ai.Text.{Text, text}
use hawiya_ai.Models.{Uuid}
use hawiya_ai.Extractors.Types.{
  mrz_format, value_error, assertion_error, unsupported_document, no_mrz_found, ocr_unavailable,
}
use hawiya_ai.Extractors.Classifier.{Bytes}
use hawiya_ai.Database.Environment.{Environment}
use hawiya_ai.Database.World.{
  World, Failure, extraction_error, possible_duplicate, multiple_results, missing_tenant,
  cross_tenant, both, commit,
}
use hawiya_ai.Services.Base.{require_tenant_id}
use hawiya_ai.Services.Extraction.{ExtractionResult, extract, caught}
use hawiya_ai.Services.Extraction.Effect.{IsTd3Adapter, after_extraction, extract-accounts}
use hawiya_ai.Api.Types.{
  Response, reply, error, number, refuse, Database, begin, end, answer, extraction_handlers,
  error_response, transaction,
}
use hawiya_ai.Api.Documents.{extract_document, content_type_or_default, max_payload_bytes}

-- The audit rows and the extraction rows that an answer stands for: no answer is an error of the
-- server, 422 and 503 report on the OCR.
abbrev pub audit_rows_of : Option (Response ExtractionResult) → ℕ
audit_rows_of none = 0
audit_rows_of (some (reply x)) = 1
audit_rows_of (some (error e)) = if (e.status_code == 422) || (e.status_code == 503) then 1 else 0

abbrev pub extraction_rows_of : Option (Response ExtractionResult) → ℕ
extraction_rows_of none = 0
extraction_rows_of (some (reply x)) = 1
extraction_rows_of (some (error e)) = 0

-- The database grows by these rows and no other of the two kinds.
abbrev pub IsAudited : Database → Option (Response ExtractionResult) × Database → Type 0
IsAudited db (response, after) =
    (length after.tables.audit_log ≡ length db.tables.audit_log + audit_rows_of response)
    × (length after.tables.extractions ≡ length db.tables.extractions + extraction_rows_of response)

none-added : {A : Type 0} (rows : List A) → length (rows ++ []) ≡ length rows + 0
none-added rows = length-append rows []

one-added : {A : Type 0} (rows : List A) (row : A) → length (rows ++ row ∷ []) ≡ length rows + 1
one-added rows row = length-append rows (row ∷ [])

module _ (tenant_id : Uuid) (request_id : Option Text) (db : Database) where
  abbrev start : World
  start = begin (some tenant_id) request_id db

  module _ (input_hash : Text) (consumer_request_id : Option Text) where
    abbrev closing : Result Failure ExtractionResult → Option (Response ExtractionResult) × Database
    closing r = end db (
        answer extraction_handlers
          (r, after_extraction tenant_id input_hash consumer_request_id start r))

    closing-IsAudited : (r : Result Failure ExtractionResult) → IsAudited db (closing r)
    unfolding extraction_handlers error_response commit both caught
    closing-IsAudited (ok x) = (one-added db.tables.audit_log _, one-added db.tables.extractions _)
    closing-IsAudited (err (extraction_error unsupported_document)) =
        (none-added db.tables.audit_log, none-added db.tables.extractions)
    closing-IsAudited (err (extraction_error (no_mrz_found message))) =
        (one-added db.tables.audit_log _, none-added db.tables.extractions)
    closing-IsAudited (err (extraction_error (mrz_format line size))) =
        (one-added db.tables.audit_log _, none-added db.tables.extractions)
    closing-IsAudited (err (extraction_error (ocr_unavailable message))) =
        (one-added db.tables.audit_log _, none-added db.tables.extractions)
    closing-IsAudited (err (extraction_error value_error)) = (omega arith, omega arith)
    closing-IsAudited (err (extraction_error assertion_error)) = (omega arith, omega arith)
    closing-IsAudited (err (possible_duplicate m)) = (omega arith, omega arith)
    closing-IsAudited (err multiple_results) = (omega arith, omega arith)
    closing-IsAudited (err missing_tenant) = (omega arith, omega arith)
    closing-IsAudited (err cross_tenant) = (omega arith, omega arith)

  module _ (env : Environment) (adapter : IsTd3Adapter env) (payload : Bytes)
      (content_type consumer_request_id : Option Text) where
    abbrev run : Result Failure ExtractionResult × World
    run =
        extract env tenant_id payload (content_type_or_default content_type) consumer_request_id
          start

    run-eq :
        run
        ≡ (run.0, after_extraction tenant_id (env.sha256 payload) consumer_request_id start run.0)
    run-eq =
        ap (λ (w : World). (run.0, w))
          (extract-accounts env adapter tenant_id payload (content_type_or_default content_type)
            consumer_request_id start refl)

    abbrev uploaded : (empty large : Bool) → Option (Response ExtractionResult) × Database
    uploaded empty large = end db (
        (if empty
            then refuse (text "EMPTY_UPLOAD") 400 []
            else if large
            then refuse (text "PAYLOAD_TOO_LARGE") 413
                ((text "size_bytes", number (length payload)) ∷ [])
            else λ w. answer extraction_handlers (
                extract env tenant_id payload (content_type_or_default content_type)
                  consumer_request_id w))
          start)

    uploaded-IsAudited : (empty large : Bool) → IsAudited db (uploaded empty large)
    unfolding error_response commit both
    uploaded-IsAudited true large =
        (none-added db.tables.audit_log, none-added db.tables.extractions)
    uploaded-IsAudited false true =
        (none-added db.tables.audit_log, none-added db.tables.extractions)
    uploaded-IsAudited false false =
        subst (λ r. IsAudited db (end db (answer extraction_handlers r))) (sym run-eq)
          (closing-IsAudited (env.sha256 payload) consumer_request_id run.0)

    -- Over an adapter that hands over lines of 44 characters, a tenant's call of the route adds to
    -- the database exactly one extraction row if it replies with a result and none otherwise, and
    -- exactly one audit row if it replies with a result, a 422 or a 503 and none otherwise.
    pub extract_document-IsAudited : IsAudited db (
        transaction
          (some tenant_id)
          request_id
          (extract_document env payload content_type consumer_request_id)
          db)
    unfolding transaction extract_document require_tenant_id
    extract_document-IsAudited =
        uploaded-IsAudited (is_empty payload) (ltb max_payload_bytes (length payload))
