-- ===== src/Api/Server/Isolation.antt =====
-- What a request to the server may do to the database.
use hawiya_ai.Prelude.{
  ℕ, ◌≡◌, refl, sym, ◌∙◌, ap, ◌⊎◌, inl, inr, true, Option, none, some, List, [], ◌∷◌,
}
use mathlib.Core.Path.{subst}
use hawiya_ai.Text.{Text, text}
use hawiya_ai.Models.{Uuid}
use hawiya_ai.Database.Environment.{Environment}
use hawiya_ai.Database.Search.{Postgres}
use hawiya_ai.Tenancy.Http.{Request, Platform, header_lookup}
use hawiya_ai.Tenancy.Middleware.{Context}
use hawiya_ai.Tenancy.Middleware.Guards.{shows_token}
use hawiya_ai.Tenancy.Stack.{Process, Moment}
use hawiya_ai.Tenancy.Stack.Calls.{IsOneCall, IsCall, serve-once}
use hawiya_ai.Tenancy.Stack.Unhandled.{create_app-Answers, create_app-context}
use hawiya_ai.Tenancy.RateLimit.{RateLimiter}
use hawiya_ai.Tenancy.Idempotency.{Store}
use hawiya_ai.Api.Types.{Database}
use hawiya_ai.Api.Conflict.{IsSound}
use hawiya_ai.Api.Steps.{IsTransition}
use hawiya_ai.Api.History.{Call, empty, handle, run}
use hawiya_ai.Api.History.Soundness.{after-IsTransition, after-none, run-IsSound}
use hawiya_ai.Api.Server.{Framework, dispatched, routes, serve, serve_all}

-- A server at its start.
abbrev pub started : Option Text → RateLimiter → Store → Context × Process Database
started request_id limiter store = (
  record { tenant_id = none; request_id = request_id },
  record { limiter = limiter; store = store; app_state = empty },
)

module _ (env : Environment) (postgres : Postgres) (framework : Framework) where
  -- The tenant of the context accounts for what a route does to the database.
  abbrev IsTenants : Option Uuid → Database → Database → Type 0
  IsTenants none db after = after ≡ db
  IsTenants (some tenant_id) db after = (after ≡ db) ⊎ IsTransition env tenant_id db after

  none-IsTenants : (tenant_id : Option Uuid) (db : Database) → IsTenants tenant_id db db
  none-IsTenants none db = refl
  none-IsTenants (some tenant_id) db = inl refl

  call-IsTenants :
      (tenant_id : Option Uuid) (request_id : Option Text) (call : Call) (db : Database)
      → IsSound env db
      → IsTenants tenant_id db (handle env postgres tenant_id request_id call db).1
  call-IsTenants none request_id call db sound = after-none env postgres request_id call db
  call-IsTenants (some tenant_id) request_id call db sound =
      inr (after-IsTransition env postgres tenant_id request_id call db sound)

  routes-IsTenants :
      (seen : Request) (parsed : Option Call) (bound : Context) (db : Database)
      → IsSound env db
      → IsTenants bound.tenant_id db (dispatched env postgres framework seen parsed (bound, db)).1.1
  routes-IsTenants seen none bound db sound = none-IsTenants bound.tenant_id db
  routes-IsTenants seen (some call) bound db sound =
      call-IsTenants bound.tenant_id bound.request_id call db sound

  module _ (platform : Platform) (ttl_seconds : ℕ) where
    -- A request that changes the database shows the token, and its header names the tenant.
    abbrev pub IsIsolated : Request → Database → Database → Type 0
    IsIsolated req db after =
        (after ≡ db)
        ⊎ ((shows_token platform req ≡ true)
            × (raw_tenant : Text) × (tenant_id : Uuid) × (header_lookup req.headers
                  (text "x-tenant-id")
                ≡ some raw_tenant)
            × (platform.parse_uuid raw_tenant ≡ some tenant_id)
            × IsTransition env tenant_id db after)

    isolated-IsSound :
        (req : Request) (db after : Database)
        → IsSound env db
        → IsIsolated req db after
        → IsSound env after
    isolated-IsSound req db after sound (inl same) = subst (IsSound env) (sym same) sound
    isolated-IsSound req db after sound (inr (t, raw, tenant_id, h, p, step)) = step.sound

    module _ (moment : Moment) (req : Request) (context : Context) (process : Process Database)
        (outside : context.tenant_id ≡ none) (sound : IsSound env process.app_state) where
      abbrev db : Database
      db = process.app_state

      called :
          (bound : Context) (after : Database)
          → IsCall platform
              (routes env postgres framework)
              ttl_seconds
              moment
              req
              process
              bound
              after
          → IsTenants bound.tenant_id db after
      unfolding routes
      called bound after (seen, copy, e) =
          subst (IsTenants bound.tenant_id db) (sym e)
            (routes-IsTenants seen (framework.parse_call seen) bound db sound)

      by_tenant :
          (tenant_id : Uuid) (raw_tenant : Text) (after : Database)
          → shows_token platform req ≡ true
          → header_lookup req.headers (text "x-tenant-id") ≡ some raw_tenant
          → platform.parse_uuid raw_tenant ≡ some tenant_id
          → IsTenants (some tenant_id) db after
          → IsIsolated req db after
      by_tenant tenant_id raw_tenant after t h p (inl same) = inl same
      by_tenant tenant_id raw_tenant after t h p (inr step) =
          inr (t, raw_tenant, tenant_id, h, p, step)

      once-IsIsolated :
          (after : Database)
          → IsOneCall platform
              (routes env postgres framework)
              ttl_seconds
              moment
              req
              process
              context
              after
          → IsIsolated req db after
      once-IsIsolated after (inl same) = inl same
      once-IsIsolated after (inr (bound, inl (path, kept), call)) = inl (
          subst (λ (o : Option Uuid). IsTenants o db after) (kept ∙ outside)
            (called bound after call))
      once-IsIsolated after (inr (bound, inr (t, raw, tenant_id, h, p, b), call)) =
          by_tenant tenant_id raw after t h p
            (subst (λ (o : Option Uuid). IsTenants o db after) b (called bound after call))

      -- Outside any tenant's context, over a database whose rows are keyed and whose UUIDs still to be
      -- drawn are unused, a request to the server either leaves the database as it is, or shows the
      -- token and names in its header the tenant to which all new persons and identifiers belong; it
      -- only appends such rows, the keys hold, and the UUIDs still to be drawn are unused.
      pub serve-IsIsolated :
          IsIsolated req db
            (serve env postgres framework platform ttl_seconds moment req
              (context, process)).1.app_state
      serve-IsIsolated =
          subst (λ (x : Context × Process Database). IsIsolated req db x.1.app_state)
            (sym
              (create_app-Answers platform (routes env postgres framework) ttl_seconds moment req
                context process).0)
            (once-IsIsolated _ (
              serve-once platform (routes env postgres framework) ttl_seconds moment req process
                context))

    pub serve_all-keeps :
        (requests : List (Moment × Request)) (context : Context) (process : Process Database)
        → context.tenant_id ≡ none
        → IsSound env process.app_state
        → IsSound env
            (serve_all env postgres framework platform ttl_seconds requests
              (context, process)).1.app_state
    unfolding serve_all
    serve_all-keeps [] context process outside sound = sound
    serve_all-keeps ((moment, req) ∷ requests) context process outside sound =
        let (context', process') =
          serve env postgres framework platform ttl_seconds moment req (context, process) in
        serve_all-keeps requests context' process'
          (ap (λ (c : Context). c.tenant_id)
              (create_app-context platform (routes env postgres framework) ttl_seconds moment req
                context process)
            ∙ outside)
          (isolated-IsSound req process.app_state process'.app_state sound
            (serve-IsIsolated moment req context process outside sound))

    -- Behind any sequence of requests to a server that starts on the empty database, outside any
    -- tenant's context, whatever the limiter and the idempotency store hold at first: at most one
    -- active identifier answers for a tenant, a type and a value, at most one person for a tenant and
    -- a key, and no person has a UUID that is still to be drawn.
    pub serve_all-IsSound :
        (requests : List (Moment × Request)) (request_id : Option Text) (limiter : RateLimiter)
        (store : Store)
        → IsSound env
            (serve_all env postgres framework platform ttl_seconds requests
              (started request_id limiter store)).1.app_state
    unfolding run
    serve_all-IsSound requests request_id limiter store =
        serve_all-keeps requests _ _ refl (run-IsSound env postgres [])
