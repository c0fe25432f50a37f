-- ===== src/Tenancy/Idempotency.antt =====
-- src/hawiya/tenancy/idempotency.py. A time is a number of ticks. The application answers whole or
-- raises before it sends anything, and one request runs to its end before the next:
-- Idempotency.Interleaving lets requests overlap.
pub mod Calls
pub mod Replay
pub mod Runs
pub mod Interleaving
use hawiya_ai.Prelude.{
  ℕ, ◌+◌, ◌&&◌, ◌||◌, Bool, true, false, not, Option, none, some, List, [], ◌∷◌, ◌++◌, ltb, leb,
  is_empty, if◌then◌else◌, length, all,
}
use hawiya_ai.Text.{Text, text, text_eq, show}
use hawiya_ai.Models.{Uuid}
use hawiya_ai.Extractors.Classifier.{Bytes}
use hawiya_ai.Dict.{lookup, insert, remove}
use hawiya_ai.Tenancy.Http.{
  Headers, Incoming, request, disconnect, Request, Response, Outcome, answered, raised, App,
  Platform, header_lookup, Key, key_Eq,
}

abbrev pub tenant_header : Bytes
tenant_header = text "x-tenant-id"

abbrev pub idempotency_header : Bytes
idempotency_header = text "idempotency-key"

pub record CachedResponse : Type 0 where
  pub status : ℕ
  pub headers : Headers
  pub body : Bytes
  pub body_hash : Text
  pub expires_at : ℕ

-- `InMemoryIdempotencyStore`.
abbrev pub Store : Type 0
Store = List (Key × CachedResponse)

-- `get`: an entry that has expired is dropped.
abbrev pub unexpired : Store → Key → ℕ → Option CachedResponse → Option CachedResponse × Store
unexpired store key now none = (none, store)
unexpired store key now (some entry) =
    if ltb entry.expires_at now then (none, remove key store) else (some entry, store)

unfoldable pub get : Store → Key → ℕ → Option CachedResponse × Store
get store key now = unexpired store key now (lookup key store)

abbrev put : Store → Key → CachedResponse → Store
put store key value = insert key value store

abbrev clear : Store → Store
clear store = []

-- The messages of an ASGI `send`.
pub data Message : Type 0 where
  response_start : ℕ → Headers → Message
  response_body : Bytes → (more_body : Bool) → Message

unfoldable pub body_messages : List Bytes → List Message
body_messages [] = response_body [] false ∷ []
body_messages (chunk ∷ []) = response_body chunk false ∷ []
body_messages (chunk ∷ next ∷ chunks) = response_body chunk true ∷ body_messages (next ∷ chunks)

unfoldable pub messages_of : Response → List Message
messages_of response =
    response_start response.status response.headers ∷ body_messages response.chunks

pub record Captured : Type 0 where
  pub status : ℕ
  pub headers : Headers
  pub body : Bytes

abbrev pub nothing_captured : Captured
nothing_captured = record { status = 200; headers = []; body = [] }

abbrev pub is_cacheable : ℕ → Bool
is_cacheable status = leb 200 status && ltb status 300

-- The entry that is put when a body ends.
abbrev pub entry_of : Captured → (body_hash : Text) → (expires_at : ℕ) → CachedResponse
entry_of captured body_hash expires_at = record {
  status = captured.status;
  headers = captured.headers;
  body = captured.body;
  body_hash = body_hash;
  expires_at = expires_at;
}

-- `send` of `_make_capturing_send`, before it hands the message on.
unfoldable pub capture :
    Key → (body_hash : Text) → (expires_at : ℕ) → Message → Captured × Store → Captured × Store
capture key body_hash expires_at (response_start status headers) (captured, store) =
    (record captured { status = status; headers = headers }, store)
capture key body_hash expires_at (response_body chunk more_body) (captured, store) =
    let whole : Captured = record captured { body = captured.body ++ chunk } in
    (
      whole,
      if not more_body && is_cacheable whole.status
          then put store key (entry_of whole body_hash expires_at)
          else store,
    )

unfoldable pub capture_all :
    Key → (body_hash : Text) → (expires_at : ℕ) → List Message → Captured × Store → Captured × Store
capture_all key body_hash expires_at [] state = state
capture_all key body_hash expires_at (message ∷ messages) state =
    capture_all key body_hash expires_at messages (capture key body_hash expires_at message state)

-- `_collect_body`: it reads up to the first message that announces no more.
unfoldable pub collect_body : List Incoming → Bytes
collect_body [] = []
collect_body (disconnect ∷ incoming) = []
collect_body (request body false ∷ incoming) = body
collect_body (request body true ∷ incoming) = body ++ collect_body incoming

-- The request that is forwarded: its body comes in one piece.
abbrev pub replayed : Request → Bytes → Request
replayed req body = record req { incoming = request body false ∷ disconnect ∷ [] }

abbrev pub is_ascii : ℕ → Bool
is_ascii c = ltb c 128

abbrev pub cached_response : CachedResponse → Response
cached_response entry = record {
  status = entry.status;
  headers = entry.headers;
  chunks = entry.body ∷ [];
}

-- `not raw_key`: an empty header counts as missing.
abbrev pub nonempty : Option Bytes → Option Bytes
nonempty none = none
nonempty (some []) = none
nonempty (some (c ∷ s)) = some (c ∷ s)

module _ (platform : Platform) where
  open platform use {parse_uuid, decode_utf8, encode_utf8, sha256}

  -- The tests at the head of `__call__`: the key of the request, or none if it passes through.
  abbrev pub with_tenant : Bytes → Option Uuid → Option Key
  with_tenant raw_key none = none
  with_tenant raw_key (some tenant_id) = some (tenant_id, decode_utf8 raw_key)

  abbrev pub key_from : (raw_key raw_tenant : Option Bytes) → Option Key
  key_from none raw_tenant = none
  key_from (some raw_key) none = none
  key_from (some raw_key) (some raw_tenant) =
      with_tenant raw_key (if all is_ascii raw_tenant then parse_uuid raw_tenant else none)

  unfoldable pub key_of : Request → Option Key
  key_of req =
      if not req.is_http || not (text_eq req.method (text "POST"))
      then none
      else key_from (nonempty (header_lookup req.headers idempotency_header))
          (nonempty (header_lookup req.headers tenant_header))

  -- `_conflict_response`; the caller passes the key where the parameter says request id.
  unfoldable pub conflict_body : Text → Bytes
  conflict_body request_id =
      text "{\"error\":{\"code\":\"IDEMPOTENCY_KEY_CONFLICT\","
      ++ (text "\"message\":\"Idempotency-Key was previously used with a different request body.\","
          ++ (text "\"details\":{},\"trace_id\":\"" ++ (encode_utf8 request_id ++ text "\"}}")))

  unfoldable pub conflict_response : Text → Response
  conflict_response request_id = record {
    status = 422;
    headers =
        (text "content-type", text "application/json")
        ∷ (text "content-length", show (length (conflict_body request_id)))
        ∷ [];
    chunks = conflict_body request_id ∷ [];
  }

  module _ {S : Type 0} (app : App S) (ttl_seconds : ℕ) where
    -- A miss: what the application sends is captured on its way, at time `sent`.
    abbrev pub captured_store : Key → Text → ℕ → Outcome → Store → Store
    captured_store key body_hash sent raised store = store
    captured_store key body_hash sent (answered response) store =
        (capture_all key body_hash (sent + ttl_seconds) (messages_of response)
          (nothing_captured, store)).1

    unfoldable pub forward : Key → Bytes → ℕ → Request → Store × S → Outcome × (Store × S)
    forward key body sent req (store, s) =
        let (outcome, s') = app (replayed req body) s in
        (outcome, (captured_store key (sha256 body) sent outcome store, s'))

    -- On what the store has for the key.
    unfoldable pub respond :
        Key → Bytes → ℕ → Request → Option CachedResponse × Store → S → Outcome × (Store × S)
    respond key body sent req (none, store) s = forward key body sent req (store, s)
    respond key body sent req (some entry, store) s = (
      if text_eq entry.body_hash (sha256 body)
          then answered (cached_response entry)
          else answered (conflict_response key.1),
      (store, s),
    )

    abbrev pub keyed : Option Key → (now sent : ℕ) → Request → Store × S → Outcome × (Store × S)
    keyed none now sent req (store, s) = let (outcome, s') = app req s in (outcome, (store, s'))
    keyed (some key) now sent req (store, s) =
        respond key (collect_body req.incoming) sent req (get store key now) s

    -- `IdempotencyMiddleware.__call__`, for a request that is looked up at time `now`, and whose
    -- answer, if there is one, is captured at time `sent`.
    unfoldable pub call : (now sent : ℕ) → Request → Store × S → Outcome × (Store × S)
    call now sent req state = keyed (key_of req) now sent req state
