-- ===== src/Tenancy/RateLimit/Dispatch.antt =====
-- `RateLimitMiddleware.dispatch` of src/hawiya/tenancy/rate_limit.py. Metrics and log lines are not
-- modelled.
use hawiya_ai.Prelude.{ℕ, Option, none, some, [], ◌∷◌}
use hawiya_ai.Text.{Text, text, show}
use hawiya_ai.Models.{Uuid}
use hawiya_ai.Tenancy.Http.{
  Request, Response, Outcome, answered, raised, App, Platform, header_lookup,
}
use hawiya_ai.Tenancy.RateLimit.{
  RateLimiter, Verdict, allowed, retry_after, overflow_error, check, classify_endpoint,
}

-- `request.headers.get("X-Request-ID") or ""`.
abbrev or_empty : Option Text → Text
or_empty none = []
or_empty (some s) = s

module _ (platform : Platform) where
  open platform use {parse_uuid, render_error}

  -- `_rate_limited_response`.
  unfoldable pub rate_limited_response : ℕ → Text → Response
  rate_limited_response seconds request_id = record {
    status = 429;
    headers = (text "retry-after", show seconds) ∷ (text "x-request-id", request_id) ∷ [];
    chunks = render_error (text "RATE_LIMITED") (some seconds) request_id ∷ [];
  }

  module _ {S : Type 0} (call_next : App S) where
    abbrev pub pass : Request → RateLimiter × S → Outcome × (RateLimiter × S)
    pass req (limiter, s) = let (outcome, s') = call_next req s in (outcome, (limiter, s'))

    -- On the verdict of the limiter.
    abbrev pub judged : Verdict × RateLimiter → Request → S → Outcome × (RateLimiter × S)
    judged (allowed, limiter) req s = pass req (limiter, s)
    judged (retry_after seconds, limiter) req s = (
      answered (
          rate_limited_response seconds
            (or_empty (header_lookup req.headers (text "x-request-id")))),
      (limiter, s),
    )
    judged (overflow_error, limiter) req s = (raised, (limiter, s))

    abbrev pub for_tenant :
        Option Uuid → Text → ℕ → Request → RateLimiter × S → Outcome × (RateLimiter × S)
    for_tenant none endpoint_class now req state = pass req state
    for_tenant (some tenant_id) endpoint_class now req (limiter, s) =
        judged (check limiter tenant_id endpoint_class now) req s

    abbrev pub with_header :
        Option Text → Text → ℕ → Request → RateLimiter × S → Outcome × (RateLimiter × S)
    with_header none endpoint_class now req state = pass req state
    with_header (some []) endpoint_class now req state = pass req state
    with_header (some (c ∷ raw_tenant)) endpoint_class now req state =
        for_tenant (parse_uuid (c ∷ raw_tenant)) endpoint_class now req state

    abbrev pub classified :
        Option Text → ℕ → Request → RateLimiter × S → Outcome × (RateLimiter × S)
    classified none now req state = pass req state
    classified (some endpoint_class) now req state =
        with_header (header_lookup req.headers (text "x-tenant-id")) endpoint_class now req state

    unfoldable pub dispatch : (now : ℕ) → Request → RateLimiter × S → Outcome × (RateLimiter × S)
    dispatch now req state = classified (classify_endpoint req.path) now req state

    -- What holds of the application's state, and of its state behind a call of it with the request,
    -- holds behind the limiter.
    module _ (P : S → Type 0) (now : ℕ) (req : Request) (s : S) (before : P s)
        (behind : P (call_next req s).1) where
      judged-keeps : (v : Verdict × RateLimiter) → P (judged v req s).1.1
      judged-keeps (allowed, limiter) = behind
      judged-keeps (retry_after seconds, limiter) = before
      judged-keeps (overflow_error, limiter) = before

      header-keeps :
          (raw_tenant : Option Text) (endpoint_class : Text) (limiter : RateLimiter)
          → P (with_header raw_tenant endpoint_class now req (limiter, s)).1.1
      header-keeps none endpoint_class limiter = behind
      header-keeps (some []) endpoint_class limiter = behind
      header-keeps (some (c ∷ raw)) endpoint_class limiter = tenant-keeps (parse_uuid (c ∷ raw))
        where
          tenant-keeps :
              (parsed : Option Uuid) → P (for_tenant parsed endpoint_class now req (limiter, s)).1.1
          tenant-keeps none = behind
          tenant-keeps (some tenant_id) = judged-keeps (check limiter tenant_id endpoint_class now)

      classified-keeps :
          (endpoint : Option Text) (limiter : RateLimiter)
          → P (classified endpoint now req (limiter, s)).1.1
      classified-keeps none limiter = behind
      classified-keeps (some endpoint_class) limiter = header-keeps _ endpoint_class limiter

      pub dispatch-keeps : (limiter : RateLimiter) → P (dispatch now req (limiter, s)).1.1
      unfolding dispatch
      dispatch-keeps limiter = classified-keeps (classify_endpoint req.path) limiter
