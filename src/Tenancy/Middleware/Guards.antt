-- ===== src/Tenancy/Middleware/Guards.antt =====
-- Which requests `TenancyMiddleware` lets through, and in which context.
use hawiya_ai.Prelude.{◌≡◌, refl, ◌⊎◌, inl, inr, Bool, true, false, Option, none, some, [], ◌∷◌}
use hawiya_ai.Text.{Text, text}
use hawiya_ai.Models.{Uuid}
use hawiya_ai.Tenancy.Http.{Request, Response, Outcome, answered, App, Platform, header_lookup}
use hawiya_ai.Tenancy.Middleware.{
  Context, unauthenticated_paths, is_among, is_token, bearer_of, or_empty, dispatch, within, exempt,
  authenticated, with_header, with_tenant,
}

module _ (platform : Platform) (req : Request) where
  -- The request shows the token.
  abbrev pub shows_token : Bool
  shows_token =
      is_token (bearer_of (or_empty (header_lookup req.headers (text "authorization"))))
        platform.dev_bearer_token

  -- A context in which the middleware may run the application: on an exempt path, the tenant of the
  -- context before; elsewhere, with the token, the tenant that the header names.
  abbrev pub IsAdmitted : Context → Context → Type 0
  IsAdmitted context bound =
      ((is_among unauthenticated_paths req.path ≡ true) × (bound.tenant_id ≡ context.tenant_id))
      ⊎ ((shows_token ≡ true)
          × (raw_tenant : Text) × (tenant_id : Uuid) × (header_lookup req.headers
                (text "x-tenant-id")
              ≡ some raw_tenant)
          × (platform.parse_uuid raw_tenant ≡ some tenant_id)
          × (bound.tenant_id ≡ some tenant_id))

  module _ {S : Type 0} (call_next : App (Context × S)) (P : Outcome × (Context × S) → Type 0)
      (state : Context × S) (refused : (response : Response) → P (answered response, state))
      (entered : (bound : Context) (request_id : Text)
        → IsAdmitted state.0 bound
        → P (within platform call_next bound request_id req state)) where
    with_tenant-cases :
        (request_id raw_tenant : Text) (parsed : Option Uuid)
        → shows_token ≡ true
        → header_lookup req.headers (text "x-tenant-id") ≡ some raw_tenant
        → platform.parse_uuid raw_tenant ≡ parsed
        → P (with_tenant platform call_next parsed request_id req state)
    with_tenant-cases request_id raw_tenant none t h e = refused _
    with_tenant-cases request_id raw_tenant (some tenant_id) t h e =
        entered _ request_id (inr (t, raw_tenant, tenant_id, h, e, refl))

    with_header-cases :
        (request_id : Text) (raw_tenant : Option Text)
        → shows_token ≡ true
        → header_lookup req.headers (text "x-tenant-id") ≡ raw_tenant
        → P (with_header platform call_next raw_tenant request_id req state)
    with_header-cases request_id none t h = refused _
    with_header-cases request_id (some []) t h = refused _
    with_header-cases request_id (some (c ∷ raw)) t h =
        with_tenant-cases request_id (c ∷ raw) (platform.parse_uuid (c ∷ raw)) t h refl

    authenticated-cases :
        (request_id : Text) (token : Bool)
        → shows_token ≡ token
        → P (authenticated platform call_next token request_id req state)
    authenticated-cases request_id false t = refused _
    authenticated-cases request_id true t = with_header-cases request_id _ t refl

    exempt-cases :
        (request_id : Text) (path : Bool)
        → is_among unauthenticated_paths req.path ≡ path
        → P (exempt platform call_next path request_id req state)
    exempt-cases request_id true e = entered _ request_id (inl (e, refl))
    exempt-cases request_id false e = authenticated-cases request_id shows_token refl

    -- A request is answered by the middleware alone, or runs the application in an admitted context.
    pub dispatch-cases : (fresh : Text) → P (dispatch platform call_next fresh req state)
    unfolding dispatch
    dispatch-cases fresh = exempt-cases _ (is_among unauthenticated_paths req.path) refl

  module _ {S : Type 0} (call_next : App (Context × S)) (fresh : Text) (context : Context)
      (s : S) where
    abbrev run : Outcome × (Context × S)
    run = dispatch platform call_next fresh req (context, s)

    -- However the middleware ends, and whether or not the application raises, the context variables
    -- are as before; and the application's state changes only by a call of it with the request in an
    -- admitted context: on an exempt path, or with the token and a tenant header that is a UUID.
    pub dispatch-guard :
        (run.1.0 ≡ context)
        × ((run.1.1 ≡ s)
            ⊎ ((bound : Context) × IsAdmitted context bound
                × (run.1.1 ≡ (call_next req (bound, s)).1.1)))
    unfolding within
    dispatch-guard =
        dispatch-cases call_next
          (λ r.
            (r.1.0 ≡ context)
            × ((r.1.1 ≡ s)
                ⊎ ((bound : Context) × IsAdmitted context bound
                    × (r.1.1 ≡ (call_next req (bound, s)).1.1))))
          (context, s) (λ response. (refl, inl refl))
          (λ bound request_id admitted. (refl, inr (bound, admitted, refl))) fresh
