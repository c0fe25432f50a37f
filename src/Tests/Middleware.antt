-- ===== src/Tests/Middleware.antt =====
-- Witnesses for the middleware: one tenant, one token, and an application that counts its calls.
use hawiya_ai.Prelude.{
  ℕ, ◌+◌, ◌≡◌, refl, ◌⊎◌, true, false, none, some, [], ◌∷◌, arith, if◌then◌else◌,
}
use hawiya_ai.Text.{Text, text, text_eq}
use hawiya_ai.Dict.{lookup, insert}
use hawiya_ai.Tenancy.Http.{
  Request, Response, answered, App, Platform, Key, key_eq, key_Eq, request, lower, header_lookup,
}
use hawiya_ai.Tenancy.Idempotency.{
  capture_all, messages_of, body_messages, capture, CachedResponse, key_of, get, collect_body,
  cached_response, call, conflict_response,
}
use hawiya_ai.Tenancy.Idempotency.Replay.{call-twice, concat}
use hawiya_ai.Tenancy.Idempotency.Runs.{run, run-cached}
use hawiya_ai.Tenancy.Idempotency.Interleaving.{
  State, Reach, here, next, arrive, answer, this, IsBacked, Reach-IsBacked, Step, start,
  put_response,
}
use hawiya_ai.Tenancy.Idempotency.Interleaving.Overlap.{Step-twice}
use hawiya_ai.Tenancy.Middleware.{Context, is_among}
use hawiya_ai.Tenancy.Middleware.Guards.{IsAdmitted, dispatch-guard}
use hawiya_ai.Tenancy.Middleware
use hawiya_ai.Tenancy.Stack.{Process, Moment, serve, serve-cached}

abbrev pub platform : Platform
platform = record {
  parse_uuid = λ s. if text_eq s (text "one") then some 1 else none;
  decode_utf8 = λ b. b;
  encode_utf8 = λ s. s;
  sha256 = λ b. b;
  render_error = λ code seconds trace_id. code;
  dev_bearer_token = text "dev";
}

abbrev pub created : Response
created = record { status = 201; headers = []; chunks = text "per" ∷ text "son" ∷ [] }

abbrev counting : App ℕ
counting req n = (answered created, n + 1)

abbrev pub post : Text → Request
post body = record {
  is_http = true;
  method = text "POST";
  path = text "/v1/persons";
  headers = (text "X-Tenant-ID", text "one") ∷ (text "Idempotency-Key", text "k") ∷ [];
  incoming = request body false ∷ [];
}

abbrev key : Key
key = (1, text "k")

keyed : (body : Text) → key_of platform (post body) ≡ some key
unfolding key_of header_lookup lower text_eq
keyed body = refl

missed : (get [] key 0).0 ≡ none
unfolding get lookup
missed = refl

abbrev live : CachedResponse
live = record {
  status = 201;
  headers = [];
  body = text "person";
  body_hash = text "{}";
  expires_at = 110;
}

found : lookup key ((key, live) ∷ []) ≡ some live
unfolding lookup key_eq text_eq
found = refl

call-twice_example :
    (call platform counting 100 0 10 (post (text "{}")) ([], 0)
      ≡ (answered created, ((key, live) ∷ [], 1)))
    × (call platform counting 100 50 60 (post (text "[]")) ((key, live) ∷ [], 1)
        ≡ (answered (conflict_response platform (text "k")), ((key, live) ∷ [], 1)))
unfolding text_eq collect_body concat get lookup insert
call-twice_example =
    call-twice platform counting 100 0 10 (post (text "{}")) key [] 0 1 created (keyed (text "{}"))
      missed refl refl 50 60 (post (text "[]")) (keyed (text "[]")) (omega arith)

run-cached_example :
    run platform counting 100
      ((50, 60, post (text "{}")) ∷ (51, 61, post (text "[]")) ∷ [])
      ((key, live) ∷ [], 1)
    ≡ (
      answered (cached_response live) ∷ answered (conflict_response platform (text "k")) ∷ [],
      ((key, live) ∷ [], 1),
    )
unfolding text_eq collect_body
run-cached_example =
    run-cached platform counting 100 key live
      ((50, 60, post (text "{}")) ∷ (51, 61, post (text "[]")) ∷ []) ((key, live) ∷ []) 1 found
      (keyed (text "{}"), omega arith, (keyed (text "[]"), omega arith, tt))

abbrev one_answered : State
one_answered = record {
  store = (key, live) ∷ [];
  pending = [];
  log = record { key = key; body = text "{}"; response = created } ∷ [];
}

one_reached : Reach platform 100 one_answered
unfolding get lookup insert concat capture_all messages_of body_messages capture
one_reached =
    next (next here (arrive key (text "{}") 0))
      (answer (record { key = key; body = text "{}" }) created 10 this)

Reach-IsBacked_example : IsBacked platform 100 one_answered
Reach-IsBacked_example = Reach-IsBacked platform 100 one_answered one_reached

Step-twice_example :
    (one two three last : State) × Step platform 100 start one
    × Step platform 100 one two
    × Step platform 100 two three
    × Step platform 100 three last
    × (one.store ≡ (get [] key 0).1)
    × (two.store ≡ (get one.store key 1).1)
    × (three.store
        ≡ put_response platform 100 (record { key = key; body = text "{}" }) created 10 two.store)
    × (last.store
        ≡ put_response platform 100 (record { key = key; body = text "{}" }) created 11 three.store)
    × (one.pending ≡ record { key = key; body = text "{}" } ∷ [])
    × (two.pending
        ≡ record { key = key; body = text "{}" } ∷ record { key = key; body = text "{}" } ∷ [])
    × (two.log ≡ [])
    × (lookup key two.store ≡ none)
    × (last.pending ≡ [])
    × (last.log
        ≡ record { key = key; body = text "{}"; response = created }
          ∷ record { key = key; body = text "{}"; response = created }
          ∷ [])
Step-twice_example = Step-twice platform 100 start key (text "{}") 0 1 10 11 created created missed

abbrev pub context : Context
context = record { tenant_id = none; request_id = none }

-- The application of the tests, behind a context.
abbrev counting_within : App (Context × ℕ)
counting_within req (bound, n) = (answered created, (bound, n + 1))

abbrev pub with_token : Request
with_token = record (post (text "{}")) {
  headers =
      (text "Authorization", text "Bearer dev")
      ∷ (text "X-Tenant-ID", text "one")
      ∷ (text "Idempotency-Key", text "k")
      ∷ [];
}

dispatch-guard_example :
    ((Middleware.dispatch platform counting_within (text "r") with_token (context, 0)).1.0
      ≡ context)
    × (((Middleware.dispatch platform counting_within (text "r") with_token (context, 0)).1.1 ≡ 0)
        ⊎ ((bound : Context) × IsAdmitted platform with_token context bound
            × ((Middleware.dispatch platform counting_within (text "r") with_token (context, 0)).1.1
                ≡ (counting_within with_token (bound, 0)).1.1)))
dispatch-guard_example = dispatch-guard platform with_token counting_within (text "r") context 0

abbrev process : Process ℕ
process = record {
  limiter = record { default_per_minute = 2; buckets = [] };
  store = (key, live) ∷ [];
  app_state = 1;
}

abbrev pub moment : Moment
moment = record { monotonic = 0; looked_up = 50; sent = 60; fresh = text "r" }

keyed_with_token : key_of platform with_token ≡ some key
unfolding key_of header_lookup lower text_eq
keyed_with_token = refl

serve-cached_example :
    ((serve platform counting_within 100 moment with_token (context, process)).1.1.store
      ≡ (key, live) ∷ [])
    × ((serve platform counting_within 100 moment with_token (context, process)).1.1.app_state ≡ 1)
serve-cached_example =
    serve-cached platform counting_within 100 moment with_token context process key live
      keyed_with_token found (omega arith)
