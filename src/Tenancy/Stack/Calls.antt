-- ===== src/Tenancy/Stack/Calls.antt =====
-- How a request through the whole stack reaches the application.
use hawiya_ai.Prelude.{ℕ, ◌≡◌, refl, ◌⊎◌, inl, inr}
use hawiya_ai.Tenancy.Http.{Request, App, Platform}
use hawiya_ai.Tenancy.Idempotency.{Store, call, collect_body, replayed}
use hawiya_ai.Tenancy.Idempotency.Calls.{call-keeps}
use hawiya_ai.Tenancy.RateLimit.Dispatch.{dispatch-keeps}
use hawiya_ai.Tenancy.Middleware.{Context, within}
use hawiya_ai.Tenancy.Middleware.Guards.{IsAdmitted, dispatch-cases}
use hawiya_ai.Tenancy.Stack.{Process, Moment, limited, serve}

-- The request itself, or its copy with the collected body.
abbrev pub IsCopy : Request → Request → Type 0
IsCopy req seen = (seen ≡ req) ⊎ (seen ≡ replayed req (collect_body req.incoming))

module _ (platform : Platform) {S : Type 0} (app : App (Context × S)) (ttl_seconds : ℕ)
    (moment : Moment) (req : Request) (process : Process S) where
  -- One call of the application in a context accounts for its state.
  abbrev pub IsCall : Context → S → Type 0
  IsCall bound s =
      (seen : Request) × IsCopy req seen × (s ≡ (app seen (bound, process.app_state)).1.1)

  limited-once :
      (bound : Context)
      → (((limited platform app ttl_seconds moment req (bound, process)).1.1.app_state
            ≡ process.app_state)
          ⊎ IsCall bound
              (limited platform app ttl_seconds moment req (bound, process)).1.1.app_state)
  unfolding limited
  limited-once bound =
      dispatch-keeps platform (call platform app ttl_seconds moment.looked_up moment.sent)
        (λ (x : Store × (Context × S)). (x.1.1 ≡ process.app_state) ⊎ IsCall bound x.1.1)
        moment.monotonic req (process.store, (bound, process.app_state)) (inl refl)
        (call-keeps platform app ttl_seconds moment.looked_up moment.sent
          (λ (x : Context × S). (x.1 ≡ process.app_state) ⊎ IsCall bound x.1) req
          (bound, process.app_state) (inl refl) (inr (req, inl refl, refl))
          (inr (_, inr refl, refl)) process.store)
        process.limiter

  -- What a request through the whole stack does to the state of the application.
  abbrev pub IsOneCall : Context → S → Type 0
  IsOneCall context s =
      (s ≡ process.app_state)
      ⊎ ((bound : Context) × IsAdmitted platform req context bound × IsCall bound s)

  entered-once :
      (context bound : Context)
      → IsAdmitted platform req context bound
      → (s : S) → ((s ≡ process.app_state) ⊎ IsCall bound s)
      → IsOneCall context s
  entered-once context bound admitted s (inl same) = inl same
  entered-once context bound admitted s (inr called) = inr (bound, admitted, called)

  -- A request through tenancy, rate limit and idempotency changes the state of the application by
  -- one call of the application or not at all. The call is made with the request itself or with its
  -- copy that holds the collected body, and in an admitted context: on an exempt path, or with the
  -- token and with the tenant of a header that is a UUID.
  pub serve-once :
      (context : Context)
      → IsOneCall context
          (serve platform app ttl_seconds moment req (context, process)).1.1.app_state
  unfolding serve within
  serve-once context =
      dispatch-cases platform req (limited platform app ttl_seconds moment)
        (λ r. IsOneCall context r.1.1.app_state) (context, process) (λ response. inl refl)
        (λ bound request_id admitted.
          entered-once context bound admitted
            (limited platform app ttl_seconds moment req (bound, process)).1.1.app_state
            (limited-once bound))
        moment.fresh
