-- ===== src/Tenancy/Idempotency/Runs.antt =====
-- A run of requests with one key through `IdempotencyMiddleware` of src/hawiya/tenancy/idempotency.py.
use hawiya_ai.Prelude.{ℕ, ◌≤◌, ◌≡◌, refl, some, List, [], ◌∷◌}
use hawiya_ai.Dict.{lookup}
use hawiya_ai.Tenancy.Http.{Request, Outcome, App, Platform, Key, key_Eq}
use hawiya_ai.Tenancy.Idempotency.{CachedResponse, Store, collect_body, key_of, call}
use hawiya_ai.Tenancy.Idempotency.Replay.{answer_to, call-hit}

module _ (platform : Platform) {S : Type 0} (app : App S) (ttl_seconds : ℕ) where
  -- A request in a run: when it is looked up, and when its answer would be captured.
  abbrev pub Timed : Type 0
  Timed = ℕ × ℕ × Request

  unfoldable pub run : List Timed → Store × S → List Outcome × (Store × S)
  run [] state = ([], state)
  run ((now, sent, req) ∷ reqs) state =
      let (outcome, state') = call platform app ttl_seconds now sent req state in
      let (outcomes, last) = run reqs state' in (outcome ∷ outcomes, last)

  -- All have this key, and are looked up before the time.
  abbrev pub AllKeyed : Key → ℕ → List Timed → Type 0
  AllKeyed key end [] = Unit
  AllKeyed key end ((now, sent, req) ∷ reqs) =
      (key_of platform req ≡ some key) × (now ≤ end) × AllKeyed key end reqs

  abbrev pub answers : Key → CachedResponse → List Timed → List Outcome
  answers key live [] = []
  answers key live ((now, sent, req) ∷ reqs) =
      answer_to platform app ttl_seconds key (collect_body req.incoming) live
      ∷ answers key live reqs

  -- While the entry of a key lives, no run of requests with that key reaches the application or
  -- changes the store: each is answered from the entry, by the cached response if the body has its
  -- hash, and by the conflict if not.
  pub run-cached :
      (key : Key) (live : CachedResponse) (reqs : List Timed) (store : Store) (s : S)
      → lookup key store ≡ some live
      → AllKeyed key live.expires_at reqs
      → run reqs (store, s) ≡ (answers key live reqs, (store, s))
  unfolding run
  run-cached key live [] store s found h = refl
  run-cached key live ((now, sent, req) ∷ reqs) store s found (k, alive, rest) =
      rw
        (
          call-hit platform app ttl_seconds now sent req key store s live k found alive,
          run-cached key live reqs store s found rest,
        )
        refl
