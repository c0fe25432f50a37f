-- ===== src/Services/Base/Frame.antt =====
-- The helpers of src/hawiya/services/base.py and src/hawiya/audit/writer.py leave the persons and the
-- identifiers as they are.
use hawiya_ai.Prelude.{Option, none, some, ok, err, ◌==◌}
use hawiya_ai.Models.{Uuid, AuditLog}
use hawiya_ai.Extractors.Types.{Attempt}
use hawiya_ai.Database.World.{
  Action, extraction_error, cross_tenant, missing_tenant, raise, gets, add_audit,
}
use hawiya_ai.Database.Frame.{
  Frames, pure-Frames, raise-Frames, gets-Frames, if-Frames, bind-Frames, add_audit-Frames,
}
use hawiya_ai.Services.Base.{
  or_missing, or_default, require_tenant_id, requires_tenant, lift, write_audit,
}

or_missing-Frames : (o : Option Uuid) → Frames (or_missing o)
or_missing-Frames none = raise-Frames Uuid missing_tenant
or_missing-Frames (some tenant_id) = pure-Frames tenant_id

pub require_tenant_id-Frames : Frames require_tenant_id
unfolding require_tenant_id
require_tenant_id-Frames =
    bind-Frames or_missing or_missing-Frames (gets (λ w. w.tenant_id))
      (gets-Frames (λ w. w.tenant_id))

module _ {A : Type 0} where
  pub requires_tenant-Frames :
      (method : Uuid → Action A) (tenant_id : Uuid)
      → ((t : Uuid) → Frames (method t))
      → Frames (requires_tenant method tenant_id)
  unfolding requires_tenant
  requires_tenant-Frames method tenant_id h =
      bind-Frames _
        (λ t.
          if-Frames (tenant_id == t) (method tenant_id) (raise cross_tenant) (h tenant_id)
            (raise-Frames A cross_tenant))
        require_tenant_id require_tenant_id-Frames

  pub lift-Frames : (x : Attempt A) → Frames (lift x)
  unfolding lift
  lift-Frames (ok a) = pure-Frames a
  lift-Frames (err e) = raise-Frames A (extraction_error e)

pub write_audit-Frames : (row : AuditLog) → Frames (write_audit row)
unfolding write_audit
write_audit-Frames row =
    bind-Frames (λ request_id. add_audit (record row { request_id = or_default request_id }))
      (λ request_id. add_audit-Frames (record row { request_id = or_default request_id }))
      (gets (λ w. w.request_id)) (gets-Frames (λ w. w.request_id))
