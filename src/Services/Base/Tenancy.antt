-- ===== src/Services/Base/Tenancy.antt =====
-- The guard `requires_tenant` of src/hawiya/services/base.py, by what the context holds.
use hawiya_ai.Prelude.{
  Option, Result, ◌≡◌, ◌∙◌, ap, if◌then◌else◌, ◌==◌, ==-refl, ==-ne, ◌≢◌, some, none, err,
}
use hawiya_ai.Models.{Uuid}
use hawiya_ai.Database.World.{World, Action, Failure, raise, continue, missing_tenant, cross_tenant}
use hawiya_ai.Services.Base.{or_missing, require_tenant_id, requires_tenant}

module _ {A : Type 0} (method : Uuid → Action A) (tenant_id : Uuid) (w : World) where
  -- The guard on what the context holds.
  abbrev entered : Option Uuid → Result Failure A × World
  entered ctx =
      continue (λ t. if tenant_id == t then method tenant_id else raise cross_tenant)
        (or_missing ctx w)

  pub requires_tenant-own :
      w.tenant_id ≡ some tenant_id → requires_tenant method tenant_id w ≡ method tenant_id w
  unfolding requires_tenant require_tenant_id
  requires_tenant-own ctx = ap entered ctx ∙ rw (==-refl tenant_id)

  pub requires_tenant-foreign :
      (ctx_tenant : Uuid)
      → w.tenant_id ≡ some ctx_tenant
      → tenant_id ≢ ctx_tenant
      → requires_tenant method tenant_id w ≡ (err cross_tenant, w)
  unfolding requires_tenant require_tenant_id
  requires_tenant-foreign ctx_tenant ctx ne = ap entered ctx ∙ rw (==-ne tenant_id ctx_tenant ne)

  pub requires_tenant-missing :
      w.tenant_id ≡ none → requires_tenant method tenant_id w ≡ (err missing_tenant, w)
  unfolding requires_tenant require_tenant_id
  requires_tenant-missing ctx = ap entered ctx
