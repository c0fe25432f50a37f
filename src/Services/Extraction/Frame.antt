-- ===== src/Services/Extraction/Frame.antt =====
-- `ExtractionService.extract` of src/hawiya/services/extraction_service.py leaves the persons and the
-- identifiers as they are, whatever it raises.
use hawiya_ai.Prelude.{refl, Option, none, some, ok, err, arith}
use hawiya_ai.Text.{Text}
use hawiya_ai.Models.{Uuid}
use hawiya_ai.Extractors.Types.{Attempt, Error, DocumentType, ParsedMrz}
use hawiya_ai.Extractors.Classifier.{Bytes, classify}
use hawiya_ai.Extractors.Mrz.{parse_td3}
use hawiya_ai.Database.Environment.{Environment}
use hawiya_ai.Database.World.{extraction_error, add_extraction, add_audit}
use hawiya_ai.Database.Repositories.{draw_uuid}
use hawiya_ai.Database.Frame.{Frames, pure-Frames, raise-Frames, bind-Frames}
use hawiya_ai.Services.Base.{lift, write_audit}
use hawiya_ai.Services.Base.Frame.{requires_tenant-Frames, lift-Frames, write_audit-Frames}
use hawiya_ai.Services.Extraction.{
  caught, audit_failure, read_lines, record_extraction, extract_body, extract,
}

module _ (tenant_id : Uuid) (input_hash : Text) where
  audit_failure-Frames :
      (A : Type 0) (e : Error) (description : Option (Text × Text))
      → Frames (audit_failure {A = A} tenant_id input_hash e description)
  unfolding audit_failure
  audit_failure-Frames A e none = raise-Frames A (extraction_error e)
  audit_failure-Frames A e (some description) =
      bind-Frames _ (λ _. raise-Frames A (extraction_error e)) _ (write_audit-Frames _)

  read_lines-Frames : (l : Attempt (Text × Text)) → Frames (read_lines tenant_id input_hash l)
  unfolding read_lines
  read_lines-Frames (ok lines) = pure-Frames lines
  read_lines-Frames (err e) = audit_failure-Frames (Text × Text) e (caught e)

module _ (env : Environment) where
  record_extraction-Frames :
      (tenant_id : Uuid) (input_hash : Text) (consumer_request_id : Option Text)
      (document_type : DocumentType) (p : ParsedMrz)
      → Frames (record_extraction env tenant_id input_hash consumer_request_id document_type p)
  unfolding record_extraction write_audit add_extraction add_audit draw_uuid
  record_extraction-Frames tenant_id input_hash consumer_request_id document_type p w = record {
    context = refl;
    stored = refl;
    persons = refl;
    identifiers = refl;
    drawn = omega arith;
  }

  module _ (payload : Bytes) (content_type : Text) (consumer_request_id : Option Text) where
    extract_body-Frames :
        (tenant_id : Uuid)
        → Frames (extract_body env payload content_type consumer_request_id tenant_id)
    unfolding extract_body
    extract_body-Frames tenant_id =
        bind-Frames _
          (λ document_type.
            bind-Frames _
              (λ lines.
                bind-Frames _
                  (λ p.
                    record_extraction-Frames tenant_id (env.sha256 payload) consumer_request_id
                      document_type p)
                  (lift (parse_td3 env.unicode env.this_year lines.0 lines.1)) (lift-Frames _))
              (read_lines tenant_id (env.sha256 payload) (env.read_mrz payload content_type))
              (read_lines-Frames tenant_id (env.sha256 payload) _))
          (lift (classify payload)) (lift-Frames _)

    pub extract-Frames :
        (tenant_id : Uuid) → Frames (extract env tenant_id payload content_type consumer_request_id)
    unfolding extract
    extract-Frames tenant_id =
        requires_tenant-Frames (extract_body env payload content_type consumer_request_id) tenant_id
          extract_body-Frames
