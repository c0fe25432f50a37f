-- ===== src/Services/Extraction.antt =====
-- src/hawiya/services/extraction_service.py. Metrics and log lines are not modelled.
pub mod Content
pub mod Effect
pub mod Frame
use hawiya_ai.Services.Extraction.Content.{
  checksum_pass, checksum_fail, name_default, sex_known, sex_unspecified, status_value, sex_value,
  before_spaces, strip_ocr_junk, fields_from_parsed, confidences_from_parsed,
}
use hawiya_ai.Prelude.{
  ℕ, ◌+◌, ◌≡◌, Bool, true, false, ◌&&◌, Option, none, some, List, [], ◌∷◌, ◌++◌, if◌then◌else◌, ok,
  err, length,
}
use hawiya_ai.Text.{Text, text, show}
use hawiya_ai.Text.Strip.{is_space, strip}
use hawiya_ai.Date.{Date, isoformat}
use hawiya_ai.Models.{
  Uuid, Confidence, Confidences, Fields, Ratio, Summary, null, str, uuid, DocumentExtraction,
  AuditLog,
}
use hawiya_ai.Extractors.Types.{
  Attempt, Error, mrz_format, value_error, assertion_error, unsupported_document, no_mrz_found,
  ocr_unavailable, DocumentType, ChecksumStatus, ProcessingPath, Sex, ParsedMrz, status,
}
use hawiya_ai.Extractors.Classifier.{Bytes, classify}
use hawiya_ai.Extractors.Mrz.{parse_td3}
use hawiya_ai.Database.Environment.{Environment}
use hawiya_ai.Database.World.{Action, pure, raise, ◌>>=◌, ◌>>◌, extraction_error, add_extraction}
use hawiya_ai.Database.Repositories.{present, draw_uuid}
use hawiya_ai.Services.Base.{requires_tenant, lift, write_audit}

pub record ExtractionResult : Type 0 where
  pub extraction_id : Uuid
  pub document_type : DocumentType
  pub fields : Fields
  pub confidence_per_field : Confidences
  pub checksum_status : ChecksumStatus
  pub processing_path : ProcessingPath
  pub processing_time_ms : ℕ

-- `sum(confidences.values()) / len(confidences)`.
abbrev total : Confidences → ℕ
total [] = 0
total ((_, c) ∷ rest) = c + total rest

unfoldable pub overall_confidence : Confidences → Ratio
overall_confidence confidences = record { sum = total confidences; count = length confidences }

-- The errors that `extract` catches and audits, with the name and the message of the exception.
unfoldable pub caught : Error → Option (Text × Text)
caught (no_mrz_found message) = some (text "NoMRZFoundError", message)
caught (ocr_unavailable message) = some (text "OCRUnavailableError", message)
caught (mrz_format line size) = some (
  text "MRZFormatError",
  text "line " ++ (show line ++ (text " must be 44 chars, got " ++ show size)),
)
caught value_error = none
caught assertion_error = none
caught unsupported_document = none

abbrev pub extract_endpoint : Text
extract_endpoint = text "/v1/documents/extract"

unfoldable pub failure_row : Uuid → Text → Text × Text → AuditLog
failure_row tenant_id input_hash (name, message) = record {
  tenant_id = tenant_id;
  request_id = [];
  user_id = none;
  endpoint = extract_endpoint;
  input_hash = some input_hash;
  output_summary = some ((text "error", str name) ∷ (text "message", str message) ∷ []);
  model_versions = none;
  confidence = none;
  processing_path = some ProcessingPath.mrz_only;
  decision = some (text "failed");
}

unfoldable pub success_row : Uuid → Text → Uuid → ChecksumStatus → Ratio → AuditLog
success_row tenant_id input_hash extraction_id checksum_status confidence = record {
  tenant_id = tenant_id;
  request_id = [];
  user_id = none;
  endpoint = extract_endpoint;
  input_hash = some input_hash;
  output_summary = some (
      (text "extraction_id", uuid extraction_id)
      ∷ (text "checksum_status", str (status_value checksum_status))
      ∷ []);
  model_versions = some ((text "mrz", text "icao-9303-td3") ∷ []);
  confidence = some confidence;
  processing_path = some ProcessingPath.mrz_only;
  decision = some (status_value checksum_status);
}

-- The `except` clause round the OCR: an audited error is written down and raised again.
unfoldable pub audit_failure : {A : Type 0} → Uuid → Text → Error → Option (Text × Text) → Action A
audit_failure tenant_id input_hash e none = raise (extraction_error e)
audit_failure tenant_id input_hash e (some description) = do
  write_audit (failure_row tenant_id input_hash description)
  raise (extraction_error e)

unfoldable pub read_lines : Uuid → Text → Attempt (Text × Text) → Action (Text × Text)
read_lines tenant_id input_hash (ok lines) = pure lines
read_lines tenant_id input_hash (err e) = audit_failure tenant_id input_hash e (caught e)

module _ (env : Environment) where
  open env use {unicode, this_year, sha256, read_mrz, elapsed_ms}

  -- What `extract` does with a parsed document: the row, the audit row and the result.
  unfoldable pub record_extraction :
      Uuid → Text → Option Text → DocumentType → ParsedMrz → Action ExtractionResult
  record_extraction tenant_id input_hash consumer_request_id document_type parsed = do
    extraction_id ← draw_uuid env
    let fields = fields_from_parsed parsed
    let confidences = confidences_from_parsed parsed
    let checksum_status = status parsed.checksums
    add_extraction (record {
      extraction_id = extraction_id;
      tenant_id = tenant_id;
      consumer_request_id = consumer_request_id;
      input_hash = input_hash;
      document_type = document_type;
      extracted_data = fields;
      confidence_per_field = confidences;
      checksum_status = checksum_status;
      processing_path = ProcessingPath.mrz_only;
      processing_time_ms = elapsed_ms;
      person_uuid = none;
      match_action = none;
    })
    write_audit (
        success_row tenant_id input_hash extraction_id checksum_status
          (overall_confidence confidences))
    pure (record {
      extraction_id = extraction_id;
      document_type = document_type;
      fields = fields;
      confidence_per_field = confidences;
      checksum_status = checksum_status;
      processing_path = ProcessingPath.mrz_only;
      processing_time_ms = elapsed_ms;
    })

  unfoldable pub extract_body : Bytes → Text → Option Text → Uuid → Action ExtractionResult
  extract_body payload content_type consumer_request_id tenant_id = do
    let input_hash = sha256 payload
    document_type ← lift (classify payload)
    lines ← read_lines tenant_id input_hash (read_mrz payload content_type)
    parsed ← lift (parse_td3 unicode this_year lines.0 lines.1)
    record_extraction tenant_id input_hash consumer_request_id document_type parsed

  -- `ExtractionService.extract`.
  unfoldable pub extract : Uuid → Bytes → Text → Option Text → Action ExtractionResult
  extract tenant_id payload content_type consumer_request_id =
      requires_tenant (extract_body payload content_type consumer_request_id) tenant_id
