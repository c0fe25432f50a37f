-- ===== src/Api/Documents/Answers.antt =====
-- How the handler of `POST /v1/documents/extract` ends, before the commit: src/hawiya/api/documents.py.
use hawiya_ai.Prelude.{
  ◌≡◌, ◌⊎◌, refl, sym, ◌∙◌, inl, inr, Bool, true, false, Option, none, some, [], ◌∷◌, ◌++◌, Result,
  ok, err, err_injective, arith, is_empty, ltb, length, if◌then◌else◌,
}
use mathlib.Core.Path.{subst}
use hawiya_ai.Text.{Text, text}
use hawiya_ai.Models.{Uuid}
use hawiya_ai.Extractors.Types.{
  Attempt, Error, mrz_format, value_error, assertion_error, unsupported_document, no_mrz_found,
  ocr_unavailable, DocumentType, ParsedMrz,
}
use hawiya_ai.Extractors.Classifier.{Bytes, classify, classify-unsupported}
use hawiya_ai.Extractors.Mrz.{parse_td3}
use hawiya_ai.Extractors.Readable.{is_readable}
use hawiya_ai.Extractors.ParseResult.{parse_td3-eq}
use hawiya_ai.Database.Environment.{Environment}
use hawiya_ai.Database.World.{
  World, Failure, extraction_error, continue, ◌>>=◌, add_extraction, add_audit,
}
use hawiya_ai.Database.Repositories.{draw_uuid}
use hawiya_ai.Services.Base.{require_tenant_id, lift, write_audit}
use hawiya_ai.Services.Extraction.{
  ExtractionResult, caught, audit_failure, read_lines, record_extraction, extract,
}
use hawiya_ai.Services.Extraction.Effect.{IsTd3Adapter, stages, after_lines, extract-stages}
use hawiya_ai.Api.Types.{Response, number, refuse, Database, begin, answer, extraction_handlers}
use hawiya_ai.Api.Documents.{extract_document, content_type_or_default, max_payload_bytes}

-- Whether the OCR adapter raises an error that the service does not expect of it.
abbrev pub IsUnexpected : Attempt (Text × Text) → Type 0
IsUnexpected l = (e : Error) × (l ≡ err e) × (caught e ≡ none)

-- Whether it hands over lines that cannot be read.
abbrev pub IsUnreadable : Attempt (Text × Text) → Type 0
IsUnreadable l = (lines : Text × Text) × (l ≡ ok lines) × (is_readable (lines.0 ++ lines.1) ≡ false)

module _ (l : Attempt (Text × Text)) where
  -- An answer, or an exception and the reason why.
  abbrev pub IsAnswered : Result Failure (Response ExtractionResult) → Type 0
  IsAnswered (err e) = IsUnexpected l ⊎ IsUnreadable l
  IsAnswered (ok response) = Unit

  abbrev closing :
      Result Failure ExtractionResult × World → Result Failure (Response ExtractionResult)
  closing r = (answer extraction_handlers r).0

  failed-IsAnswered :
      (e : Error) (w : World) → l ≡ err e → IsAnswered (closing (err (extraction_error e), w))
  unfolding extraction_handlers caught
  failed-IsAnswered unsupported_document w h = tt
  failed-IsAnswered (no_mrz_found message) w h = tt
  failed-IsAnswered (mrz_format line size) w h = tt
  failed-IsAnswered (ocr_unavailable message) w h = tt
  failed-IsAnswered value_error w h = inl (value_error, h, refl)
  failed-IsAnswered assertion_error w h = inl (assertion_error, h, refl)

  unsupported-IsAnswered :
      (e : Error) (w : World)
      → e ≡ unsupported_document
      → IsAnswered (closing (err (extraction_error e), w))
  unfolding extraction_handlers
  unsupported-IsAnswered e w same =
      subst (λ (e' : Error). IsAnswered (closing (err (extraction_error e'), w))) (sym same) tt

  unreadable-IsAnswered :
      (lines : Text × Text) (w : World)
      → l ≡ ok lines
      → is_readable (lines.0 ++ lines.1) ≡ false
      → IsAnswered (closing (err (extraction_error value_error), w))
  unfolding extraction_handlers
  unreadable-IsAnswered lines w h u = inr (lines, h, u)

  module _ (env : Environment) (tenant_id : Uuid) (input_hash : Text)
      (consumer_request_id : Option Text) (w : World) where
    audit_failure-raises :
        (A : Type 0) (e : Error) (description : Option (Text × Text))
        → (v : World) × (audit_failure {A = A} tenant_id input_hash e description w
            ≡ (err (extraction_error e), v))
    unfolding audit_failure write_audit add_audit
    audit_failure-raises A e none = (w, refl)
    audit_failure-raises A e (some description) = (_, refl)

    parsed-IsAnswered :
        (document_type : DocumentType) (lines : Text × Text) (x : Attempt ParsedMrz)
        → l ≡ ok lines
        → ((e : Error) → x ≡ err e → (e ≡ value_error) × (is_readable (lines.0 ++ lines.1) ≡ false))
        → IsAnswered (
            closing (
              (lift x
                  >>= record_extraction env tenant_id input_hash consumer_request_id document_type)
                w))
    unfolding lift record_extraction write_audit add_extraction add_audit draw_uuid
    parsed-IsAnswered document_type lines (ok p) h k = tt
    parsed-IsAnswered document_type lines (err e) h k =
        let (same, unreadable) = k e refl in
        subst (λ (e' : Error). IsAnswered (closing (err (extraction_error e'), w))) (sym same)
          (unreadable-IsAnswered lines w h unreadable)

    staged-IsAnswered :
        (c : Attempt DocumentType) (read : Attempt (Text × Text))
        (p : Text × Text → Attempt ParsedMrz)
        → l ≡ read
        → ((e : Error) → c ≡ err e → e ≡ unsupported_document)
        → ((lines : Text × Text) (e : Error)
            → read ≡ ok lines
            → p lines ≡ err e
            → (e ≡ value_error) × (is_readable (lines.0 ++ lines.1) ≡ false))
        → IsAnswered (closing (stages tenant_id input_hash consumer_request_id w env c read p w))
    unfolding lift read_lines
    staged-IsAnswered (err e) read p h hc hp = unsupported-IsAnswered e w (hc e refl)
    staged-IsAnswered (ok document_type) (err e) p h hc hp =
        let (v, raises) = audit_failure-raises (Text × Text) e (caught e) in
        subst
          (λ (r : Result Failure (Text × Text) × World). IsAnswered (
            closing (
              continue (after_lines tenant_id input_hash consumer_request_id w env document_type p)
                r)))
          (sym raises) (failed-IsAnswered e v h)
    staged-IsAnswered (ok document_type) (ok lines) p h hc hp =
        parsed-IsAnswered document_type lines (p lines) h (λ e. hp lines e refl)

-- A parse of two lines of 44 characters that raises: they cannot be read, and the error is `ValueError`.
unreadable :
    (b : Bool) (p : ParsedMrz) (e : Error)
    → Path (Attempt ParsedMrz) (if b then ok p else err value_error) (err e)
    → (e ≡ value_error) × (b ≡ false)
unreadable true p e h = absurd (ground arith)
unreadable false p e h = (sym (err_injective h), refl)

module _ (env : Environment) (adapter : IsTd3Adapter env) (payload : Bytes)
    (content_type consumer_request_id : Option Text) (tenant_id : Uuid) (request_id : Option Text)
    (db : Database) where
  abbrev type_text : Text
  type_text = content_type_or_default content_type

  abbrev start : World
  start = begin (some tenant_id) request_id db

  extract-IsAnswered : IsAnswered (env.read_mrz payload type_text) (
      closing
        (env.read_mrz payload type_text)
        (extract env tenant_id payload type_text consumer_request_id start))
  extract-IsAnswered =
      subst
        (λ (r : Result Failure ExtractionResult × World).
          IsAnswered (env.read_mrz payload type_text) (closing (env.read_mrz payload type_text) r))
        (sym
          (extract-stages env adapter tenant_id payload type_text consumer_request_id start refl))
        (staged-IsAnswered (env.read_mrz payload type_text) env tenant_id (env.sha256 payload)
          consumer_request_id start (classify payload) (env.read_mrz payload type_text)
          (λ lines. parse_td3 env.unicode env.this_year lines.0 lines.1) refl
          (classify-unsupported payload)
          (λ lines e h k.
            let (a, b) = adapter.lengths payload type_text lines.0 lines.1 h in
            unreadable (is_readable (lines.0 ++ lines.1)) _ e
              (sym (parse_td3-eq env.unicode env.this_year lines.0 lines.1 a b) ∙ k)))

  uploaded-IsAnswered :
      (empty large : Bool)
      → IsAnswered
          (env.read_mrz payload type_text)
          ((if empty
              then refuse (text "EMPTY_UPLOAD") 400 []
              else if large
              then refuse
                  (text "PAYLOAD_TOO_LARGE")
                  413
                  ((text "size_bytes", number (length payload)) ∷ [])
              else λ w.
                  answer extraction_handlers
                    (extract env tenant_id payload type_text consumer_request_id w))
            start).0
  uploaded-IsAnswered true large = tt
  uploaded-IsAnswered false true = tt
  uploaded-IsAnswered false false = extract-IsAnswered

  -- Over an adapter that hands over lines of 44 characters, the handler of the route, called in a
  -- tenant's session, returns an answer, unless the adapter raises an error that the service does not
  -- catch, or hands over lines that the parser cannot read. This is the call up to the end of the
  -- handler: whether the database takes the rows at the commit is not part of it.
  pub extract_document-answers :
      IsAnswered
        (env.read_mrz payload type_text)
        (extract_document env payload content_type consumer_request_id
          (begin (some tenant_id) request_id db)).0
  unfolding extract_document require_tenant_id
  extract_document-answers =
      uploaded-IsAnswered (is_empty payload) (ltb max_payload_bytes (length payload))
