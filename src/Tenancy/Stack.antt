-- ===== src/Tenancy/Stack.antt =====
-- The middleware of `create_app` in src/hawiya/main.py, outermost first: tenancy, rate limit,
-- idempotency, and the application with its routes. CORS is the framework's.
pub mod Calls
pub mod Unhandled
use hawiya_ai.Prelude.{ℕ, ◌≤◌, ◌≡◌, refl, sym, ◌∙◌, ap, ap₂, inl, inr, false, some}
use mathlib.Core.Bool.{false≢true}
use hawiya_ai.Text.{Text}
use hawiya_ai.Dict.{lookup}
use hawiya_ai.Tenancy.Http.{Request, Outcome, App, Platform, Key, key_Eq}
use hawiya_ai.Tenancy.Idempotency.{CachedResponse, Store, call, key_of}
use hawiya_ai.Tenancy.Idempotency.Replay.{call-hit}
use hawiya_ai.Tenancy.RateLimit.{RateLimiter}
use hawiya_ai.Tenancy.RateLimit.Dispatch
use hawiya_ai.Tenancy.RateLimit.Dispatch.{dispatch-keeps}
use hawiya_ai.Tenancy.Middleware
use hawiya_ai.Tenancy.Middleware.{Context, within, is_among, unauthenticated_paths}
use hawiya_ai.Tenancy.Middleware.Guards.{shows_token, dispatch-cases, dispatch-guard}

-- What the process keeps between requests, beside the application's own state.
pub record Process (S : Type 0) : Type 0 where
  pub limiter : RateLimiter
  pub store : Store
  pub app_state : S

-- The clock as one request meets it: the limiter's monotonic time, the lookup of its key, and the
-- moment when its answer is captured; and the UUID for a request that has no id.
pub record Moment : Type 0 where
  pub monotonic : ℕ
  pub looked_up : ℕ
  pub sent : ℕ
  pub fresh : Text

module _ (platform : Platform) {S : Type 0} (app : App (Context × S)) (ttl_seconds : ℕ)
    (moment : Moment) where
  -- Behind the tenancy middleware.
  unfoldable pub limited : App (Context × Process S)
  limited req (context, process) =
      let (outcome, (limiter, (store, (context', s)))) =
        Dispatch.dispatch platform (call platform app ttl_seconds moment.looked_up moment.sent)
          moment.monotonic req (process.limiter, (process.store, (context, process.app_state))) in
      (outcome, (context', record { limiter = limiter; store = store; app_state = s }))

  unfoldable pub serve : App (Context × Process S)
  serve = Middleware.dispatch platform limited moment.fresh

  abbrev IsKept : Process S → Outcome × (Context × Process S) → Type 0
  IsKept process r = (r.1.1.store ≡ process.store) × (r.1.1.app_state ≡ process.app_state)

  module _ (req : Request) (context : Context) (process : Process S) where
    limited-IsKept :
        (key : Key) (entry : CachedResponse)
        → key_of platform req ≡ some key
        → lookup key process.store ≡ some entry
        → moment.looked_up ≤ entry.expires_at
        → IsKept process (limited req (context, process))
    unfolding limited
    limited-IsKept key entry k found alive =
        let same =
          dispatch-keeps platform (call platform app ttl_seconds moment.looked_up moment.sent)
            (λ (x : Store × (Context × S)).
              ◌≡◌ {A = Store × S} (x.0, x.1.1) (process.store, process.app_state))
            moment.monotonic req (process.store, (context, process.app_state)) refl
            (ap (λ r. (r.1.0, r.1.1.1))
              (call-hit platform app ttl_seconds moment.looked_up moment.sent req key process.store
                (context, process.app_state) entry k found alive))
            process.limiter in
        (ap (λ x. x.0) same, ap (λ x. x.1) same)

  module _ (req : Request) (context : Context) (process : Process S) where
    -- While the entry of its key lives, a request through the whole stack, whether it is refused,
    -- limited, replayed or in conflict, neither reaches the application nor changes the store.
    pub serve-cached :
        (key : Key) (entry : CachedResponse)
        → key_of platform req ≡ some key
        → lookup key process.store ≡ some entry
        → moment.looked_up ≤ entry.expires_at
        → ((serve req (context, process)).1.1.store ≡ process.store)
          × ((serve req (context, process)).1.1.app_state ≡ process.app_state)
    unfolding serve within
    serve-cached key entry k found alive =
        dispatch-cases platform req limited (IsKept process) (context, process)
          (λ response. (refl, refl))
          (λ bound request_id admitted. limited-IsKept req bound process key entry k found alive)
          moment.fresh

    -- On a path that is not exempt, a request without the token changes nothing: no bucket, no
    -- entry of the store, no state of the application, and no context variable.
    pub serve-unauthenticated :
        is_among unauthenticated_paths req.path ≡ false
        → shows_token platform req ≡ false
        → (serve req (context, process)).1 ≡ (context, process)
    unfolding serve
    serve-unauthenticated open_path token =
        let (kept, change) = dispatch-guard platform req limited moment.fresh context process in
        elim change [
          | inl same ↦ ap₂ (λ c p. (c, p)) kept same
          | inr (bound, inl (e, _), _) ↦ absurd (false≢true (sym open_path ∙ e))
          | inr (bound, inr (t, _, _, _, _, _), _) ↦ absurd (false≢true (sym token ∙ t))
        ]
