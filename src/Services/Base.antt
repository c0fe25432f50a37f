-- ===== src/Services/Base.antt =====
-- src/hawiya/services/base.py and src/hawiya/audit/writer.py.
pub mod Tenancy
pub mod Frame
use hawiya_ai.Prelude.{ℕ, Bool, Option, none, some, ◌==◌, if◌then◌else◌, ok, err, [], ◌∷◌}
use hawiya_ai.Text.{Text, text}
use hawiya_ai.Models.{Uuid, Ratio, Summary, AuditLog}
use hawiya_ai.Extractors.Types.{Attempt, ProcessingPath}
use hawiya_ai.Database.World.{
  World, Action, pure, raise, gets, ◌>>=◌, ◌>>◌, extraction_error, missing_tenant, cross_tenant,
  add_audit,
}

-- `require_tenant_id` of src/hawiya/tenancy/context.py.
abbrev pub or_missing : Option Uuid → Action Uuid
or_missing none = raise missing_tenant
or_missing (some tenant_id) = pure tenant_id

unfoldable pub require_tenant_id : Action Uuid
require_tenant_id = do tenant_id ← gets (λ w. w.tenant_id); or_missing tenant_id

-- The decorator `requires_tenant`. Its check that the first argument is a UUID is the type here.
unfoldable pub requires_tenant : {A : Type 0} → (Uuid → Action A) → Uuid → Action A
requires_tenant method tenant_id = do
  ctx_tenant ← require_tenant_id
  if tenant_id == ctx_tenant then method tenant_id else raise cross_tenant

-- A pure step of the pipeline inside a service.
unfoldable pub lift : {A : Type 0} → Attempt A → Action A
lift (ok a) = pure a
lift (err e) = raise (extraction_error e)

-- `current_request_id() or "no-request-id"`.
abbrev pub or_default : Option Text → Text
or_default none = text "no-request-id"
or_default (some []) = text "no-request-id"
or_default (some (c ∷ s)) = c ∷ s

-- `AuditWriter.write`; the row is given as the arguments of the call, and the writer fills in the request.
unfoldable pub write_audit : AuditLog → Action (Unit {0})
write_audit row = do
  request_id ← gets (λ w. w.request_id)
  add_audit (record row { request_id = or_default request_id })
