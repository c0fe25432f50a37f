-- ===== src/Api/Documents.antt =====
-- src/hawiya/api/documents.py.
pub mod Answers
use hawiya_ai.Prelude.{ℕ, Option, none, some, [], ◌∷◌, if◌then◌else◌, ltb, length, is_empty}
use hawiya_ai.Text.{Text, text}
use hawiya_ai.Extractors.Classifier.{Bytes}
use hawiya_ai.Database.Environment.{Environment}
use hawiya_ai.Database.World.{Action, ◌>>=◌}
use hawiya_ai.Services.Base.{require_tenant_id}
use hawiya_ai.Services.Extraction.{ExtractionResult, extract}
use hawiya_ai.Api.Types.{Response, number, refuse, try, extraction_handlers}

-- `10 * 1024 * 1024`, of src/hawiya/api/documents.py and src/hawiya/api/identity.py.
abbrev pub max_payload_bytes : ℕ
max_payload_bytes = 10485760

-- `file.content_type or "application/octet-stream"`.
abbrev pub content_type_or_default : Option Text → Text
content_type_or_default none = text "application/octet-stream"
content_type_or_default (some []) = text "application/octet-stream"
content_type_or_default (some (c ∷ s)) = c ∷ s

-- The two checks on the size of an upload.
abbrev pub checked_upload : {A : Type 0} → Bytes → Action (Response A) → Action (Response A)
checked_upload payload accept =
    if is_empty payload
    then refuse (text "EMPTY_UPLOAD") 400 []
    else if ltb max_payload_bytes (length payload)
    then refuse (text "PAYLOAD_TOO_LARGE") 413 ((text "size_bytes", number (length payload)) ∷ [])
    else accept

unfoldable pub extract_document :
    Environment
    → Bytes
    → (content_type consumer_request_id : Option Text) → Action (Response ExtractionResult)
extract_document env payload content_type consumer_request_id = do
  tenant_id ← require_tenant_id
  checked_upload payload (
      try extraction_handlers
        (extract env tenant_id payload (content_type_or_default content_type) consumer_request_id))
