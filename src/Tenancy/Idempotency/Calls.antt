-- ===== src/Tenancy/Idempotency/Calls.antt =====
-- How `IdempotencyMiddleware` of src/hawiya/tenancy/idempotency.py reaches the application.
use hawiya_ai.Prelude.{ℕ, Option, none, some}
use hawiya_ai.Tenancy.Http.{Request, App, Platform, Key, key_Eq}
use hawiya_ai.Tenancy.Idempotency.{
  CachedResponse, Store, get, collect_body, replayed, key_of, forward, respond, keyed, call,
}

-- What holds of the application's state, and behind a call of it with the request or its copy with
-- the collected body, holds behind the middleware.
module _ (platform : Platform) {S : Type 0} (app : App S) (ttl_seconds now sent : ℕ)
    (P : S → Type 0) (req : Request) (s : S) (before : P s) (behind : P (app req s).1)
    (copied : P (app (replayed req (collect_body req.incoming)) s).1) where
  respond-keeps :
      (key : Key) (found : Option CachedResponse × Store)
      → P (respond platform app ttl_seconds key (collect_body req.incoming) sent req found s).1.1
  unfolding respond forward
  respond-keeps key (none, store) = copied
  respond-keeps key (some entry, store) = before

  keyed-keeps :
      (key : Option Key) (store : Store)
      → P (keyed platform app ttl_seconds key now sent req (store, s)).1.1
  keyed-keeps none store = behind
  keyed-keeps (some key) store = respond-keeps key (get store key now)

  pub call-keeps : (store : Store) → P (call platform app ttl_seconds now sent req (store, s)).1.1
  unfolding call
  call-keeps store = keyed-keeps (key_of platform req) store
