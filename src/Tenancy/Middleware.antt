-- ===== src/Tenancy/Middleware.antt =====
-- `TenancyMiddleware` of src/hawiya/tenancy/middleware.py, over the context variables of
-- src/hawiya/tenancy/context.py.
pub mod Guards
use hawiya_ai.Prelude.{
  ℕ, Bool, ◌||◌, not, true, false, Option, none, some, List, [], ◌∷◌, drop, if◌then◌else◌, length,
}
use hawiya_ai.Text.{Text, text, text_eq, starts_with}
use hawiya_ai.Models.{Uuid}
use hawiya_ai.Tenancy.Http.{
  Headers, Request, Response, Outcome, answered, raised, App, Platform, header_lookup, set_header,
}

pub record Context : Type 0 where
  pub tenant_id : Option Uuid
  pub request_id : Option Text

abbrev pub unauthenticated_paths : List Text
unauthenticated_paths =
    text "/v1/health"
    ∷ text "/v1/ready"
    ∷ text "/metrics"
    ∷ text "/openapi.json"
    ∷ text "/docs"
    ∷ text "/docs/oauth2-redirect"
    ∷ text "/redoc"
    ∷ []

unfoldable pub is_among : List Text → Text → Bool
is_among [] path = false
is_among (p ∷ paths) path = text_eq p path || is_among paths path

abbrev pub request_id_header : Text
request_id_header = text "x-request-id"

-- `request.headers.get("X-Request-ID") or str(uuid.uuid4())`; `fresh` is the text of a new UUID.
abbrev pub or_fresh : Option Text → Text → Text
or_fresh none fresh = fresh
or_fresh (some []) fresh = fresh
or_fresh (some (c ∷ s)) fresh = c ∷ s

-- `request.headers.get("Authorization", "")`.
abbrev pub or_empty : Option Text → Text
or_empty none = []
or_empty (some s) = s

-- `auth.removeprefix("Bearer ") if auth.startswith("Bearer ") else None`.
unfoldable pub bearer_of : Text → Option Text
bearer_of auth = if starts_with (text "Bearer ") auth then some (drop 7 auth) else none

-- `bearer != settings.dev_bearer_token`.
abbrev pub is_token : Option Text → Text → Bool
is_token none token = false
is_token (some bearer) token = text_eq bearer token

module _ (platform : Platform) where
  open platform use {parse_uuid, render_error, dev_bearer_token}

  -- `_error`, with the headers that `JSONResponse` adds left to the framework.
  unfoldable pub error : Text → ℕ → Text → Response
  error code status_code request_id = record {
    status = status_code;
    headers = (request_id_header, request_id) ∷ [];
    chunks = render_error code none request_id ∷ [];
  }

  -- `response.headers["X-Request-ID"] = request_id`.
  abbrev pub stamped : Text → Outcome → Outcome
  stamped request_id raised = raised
  stamped request_id (answered response) =
      answered
        (record response { headers = set_header request_id_header request_id response.headers })

  module _ {S : Type 0} (call_next : App (Context × S)) where
    -- The application runs in the new context, and the old one is set again in the `finally` clause.
    unfoldable pub within : Context → Text → Request → Context × S → Outcome × (Context × S)
    within bound request_id req (context, s) =
        let (outcome, (_, s')) = call_next req (bound, s) in
        (stamped request_id outcome, (context, s'))

    -- On what `uuid.UUID` makes of the tenant header.
    abbrev pub with_tenant : Option Uuid → Text → Request → Context × S → Outcome × (Context × S)
    with_tenant none request_id req state =
        (answered (error (text "TENANT_INVALID") 400 request_id), state)
    with_tenant (some tenant_id) request_id req state =
        within (record { tenant_id = some tenant_id; request_id = some request_id }) request_id req
          state

    abbrev pub with_header : Option Text → Text → Request → Context × S → Outcome × (Context × S)
    with_header none request_id req state =
        (answered (error (text "TENANT_REQUIRED") 401 request_id), state)
    with_header (some []) request_id req state =
        (answered (error (text "TENANT_REQUIRED") 401 request_id), state)
    with_header (some (c ∷ raw_tenant)) request_id req state =
        with_tenant (parse_uuid (c ∷ raw_tenant)) request_id req state

    abbrev pub authenticated : Bool → Text → Request → Context × S → Outcome × (Context × S)
    authenticated false request_id req state =
        (answered (error (text "UNAUTHENTICATED") 401 request_id), state)
    authenticated true request_id req state =
        with_header (header_lookup req.headers (text "x-tenant-id")) request_id req state

    -- An exempt path sets the request id only.
    abbrev pub exempt : Bool → Text → Request → Context × S → Outcome × (Context × S)
    exempt true request_id req (context, s) =
        within (record context { request_id = some request_id }) request_id req (context, s)
    exempt false request_id req state =
        authenticated
          (is_token (bearer_of (or_empty (header_lookup req.headers (text "authorization"))))
            dev_bearer_token)
          request_id req state

    -- `TenancyMiddleware.dispatch`.
    unfoldable pub dispatch : (fresh : Text) → Request → Context × S → Outcome × (Context × S)
    dispatch fresh req state =
        exempt (is_among unauthenticated_paths req.path)
          (or_fresh (header_lookup req.headers request_id_header) fresh) req state
