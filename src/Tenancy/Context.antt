-- ===== src/Tenancy/Context.antt =====
-- `TenantContext` of src/hawiya/tenancy/context.py: a block of a script or a test with a tenant in its
-- context. `Token` and the context variables are Python's.
use hawiya_ai.Prelude.{
  ◌≡◌, ◌≢◌, refl, ◌∙◌, ap, sym, ◌⊎◌, inl, inr, Bool-cases, ◌==◌, ==_iff, Option, none, some, Result,
  err, arith,
}
use hawiya_ai.Text.{Text}
use hawiya_ai.Models.{Uuid}
use hawiya_ai.Database.World.{World, Action, Failure, cross_tenant}
use hawiya_ai.Services.Base.{requires_tenant}
use hawiya_ai.Services.Base.Tenancy.{requires_tenant-own, requires_tenant-foreign}

-- The request id is set, and set back, only if one is given.
abbrev or_kept : Option Text → Option Text → Option Text
or_kept none old = old
or_kept (some request_id) old = some request_id

abbrev or_reset : Option Text → (old now : Option Text) → Option Text
or_reset none old now = now
or_reset (some request_id) old now = old

abbrev pub entered : Uuid → Option Text → World → World
entered tenant_id request_id w = record w {
  tenant_id = some tenant_id;
  request_id = or_kept request_id w.request_id;
}

-- The `finally` clause, whether the block ends or raises.
abbrev pub left :
    {A : Type 0} → Option Text → World → Result Failure A × World → Result Failure A × World
left request_id w (r, w') = (
  r,
  record w' {
    tenant_id = w.tenant_id;
    request_id = or_reset request_id w.request_id w'.request_id;
  },
)

unfoldable pub tenant_context : {A : Type 0} → Uuid → Option Text → Action A → Action A
tenant_context tenant_id request_id block w =
    left request_id w (block (entered tenant_id request_id w))

module _ {A : Type 0} (method : Uuid → Action A) (tenant_id asked : Uuid) (request_id : Option Text)
    (w : World) where
  foreign :
      (given : Option Text)
      → left {A = A} given w (err cross_tenant, entered tenant_id given w) ≡ (err cross_tenant, w)
  foreign none = refl
  foreign (some request_id) = refl

  -- In a block with the context of a tenant, a service method that is called for this tenant runs, and
  -- one that is called for another tenant raises `CrossTenantError` and changes nothing; behind the
  -- block, the tenant of the context is the one before it.
  pub tenant_context-requires_tenant :
      (((asked ≡ tenant_id)
          × (tenant_context tenant_id request_id (requires_tenant method asked) w
              ≡ tenant_context tenant_id request_id (method asked) w))
        ⊎ ((asked ≢ tenant_id)
            × (tenant_context tenant_id request_id (requires_tenant method asked) w
                ≡ (err cross_tenant, w))))
      × ((tenant_context tenant_id request_id (requires_tenant method asked) w).1.tenant_id
          ≡ w.tenant_id)
  unfolding tenant_context
  tenant_context-requires_tenant = (
    elim (Bool-cases (asked == tenant_id)) [
      | inl e ↦
          let same : asked ≡ tenant_id = (==_iff asked tenant_id).0 e in
          inl (
            same,
            ap (left request_id w) (
                requires_tenant-own method asked (entered tenant_id request_id w)
                  (ap some (sym same))),
          )
      | inr e ↦
          let other : asked ≢ tenant_id = λ same. ground arith in
          inr (
            other,
            ap (left request_id w) (
                  requires_tenant-foreign method asked (entered tenant_id request_id w) tenant_id
                    refl other)
                ∙ foreign request_id,
          )
    ],
    refl,
  )
