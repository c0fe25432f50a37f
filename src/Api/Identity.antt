-- ===== src/Api/Identity.antt =====
-- src/hawiya/api/identity.py.
use hawiya_ai.Prelude.{Bool, Option}
use hawiya_ai.Text.{Text}
use hawiya_ai.Extractors.Classifier.{Bytes}
use hawiya_ai.Database.Environment.{Environment}
use hawiya_ai.Database.World.{Action, ◌>>=◌}
use hawiya_ai.Services.Base.{require_tenant_id}
use hawiya_ai.Services.Identity.{ResolveResult, resolve}
use hawiya_ai.Api.Types.{Response, try, extraction_handlers}
use hawiya_ai.Api.Documents.{checked_upload, content_type_or_default}

unfoldable pub resolve_identity :
    Environment
    → Bytes
    → (content_type consumer_request_id : Option Text) → (create_if_missing : Bool)
    → Action (Response ResolveResult)
resolve_identity env payload content_type consumer_request_id create_if_missing = do
  tenant_id ← require_tenant_id
  checked_upload payload (
      try extraction_handlers (
        resolve env tenant_id payload (content_type_or_default content_type) consumer_request_id
          create_if_missing))
