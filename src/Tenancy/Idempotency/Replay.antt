-- ===== src/Tenancy/Idempotency/Replay.antt =====
-- What `IdempotencyMiddleware` of src/hawiya/tenancy/idempotency.py answers to a repeated request.
use hawiya_ai.Prelude.{
  ℕ, ◌+◌, ◌≤◌, ◌≡◌, refl, ◌∙◌, ap, true, false, Option, none, some, List, [], ◌∷◌, ◌++◌, arith, ltb,
  Bool-cases, inl, inr, if◌then◌else◌,
}
use mathlib.Core.List.{append_assoc, append-nil}
use hawiya_ai.Text.{Text, text_eq}
use hawiya_ai.Extractors.Classifier.{Bytes}
use hawiya_ai.Dict.{lookup, insert, lookup-insert_self, lookup-remove_self}
use hawiya_ai.Tenancy.Http.{Request, Response, Outcome, answered, App, Platform, Key, key_Eq}
use hawiya_ai.Tenancy.Idempotency.{
  CachedResponse, Store, get, unexpired, Captured, nothing_captured, is_cacheable, entry_of,
  capture, capture_all, body_messages, messages_of, collect_body, replayed, key_of,
  conflict_response, cached_response, captured_store, forward, respond, call,
}

unfoldable pub concat : List Bytes → Bytes
concat [] = []
concat (chunk ∷ chunks) = chunk ++ concat chunks

-- The store behind a whole response.
abbrev pub stored_if_cacheable : Key → Text → ℕ → Captured → Store → Store
stored_if_cacheable key body_hash expires_at whole store =
    if is_cacheable whole.status
    then insert key (entry_of whole body_hash expires_at) store
    else store

module _ (key : Key) (body_hash : Text) (expires_at : ℕ) where
  capture-body :
      (chunks : List Bytes) (captured : Captured) (store : Store)
      → (capture_all key body_hash expires_at (body_messages chunks) (captured, store)).1
        ≡ stored_if_cacheable key body_hash expires_at
            (record captured { body = captured.body ++ concat chunks })
            store
  unfolding capture_all capture body_messages concat
  capture-body [] captured store = refl
  capture-body (chunk ∷ []) captured store = rw (append-nil chunk) refl
  capture-body (chunk ∷ next ∷ chunks) captured store =
      capture-body (next ∷ chunks) (record captured { body = captured.body ++ chunk }) store
      ∙ ap
          (λ (b : Bytes).
            stored_if_cacheable key body_hash expires_at (record captured { body = b }) store)
          (append_assoc captured.body chunk _)

  -- A captured response is put whole, once, if its status is a success.
  pub capture-response :
      (response : Response) (store : Store)
      → (capture_all key body_hash expires_at (messages_of response) (nothing_captured, store)).1
        ≡ stored_if_cacheable key body_hash expires_at
            (record {
              status = response.status;
              headers = response.headers;
              body = concat response.chunks;
            })
            store
  unfolding capture_all capture messages_of
  capture-response response store =
      capture-body response.chunks
        (record { status = response.status; headers = response.headers; body = [] }) store

get-alive :
    (store : Store) (key : Key) (now : ℕ) (entry : CachedResponse)
    → lookup key store ≡ some entry
    → now ≤ entry.expires_at
    → get store key now ≡ (some entry, store)
unfolding get
get-alive store key now entry found h = rw found (ground arith)

miss-gone :
    (store : Store) (key : Key) (now : ℕ) (o : Option CachedResponse)
    → lookup key store ≡ o
    → (unexpired store key now o).0 ≡ none
    → lookup key (unexpired store key now o).1 ≡ none
miss-gone store key now none h m = h
miss-gone store key now (some entry) h m = elim (Bool-cases (ltb entry.expires_at now)) [
  | inl e ↦ rw e (lookup-remove_self key store)
  | inr e ↦ ground arith
]

get-gone :
    (store : Store) (key : Key) (now : ℕ)
    → (get store key now).0 ≡ none
    → lookup key (get store key now).1 ≡ none
unfolding get
get-gone store key now m = miss-gone store key now (lookup key store) refl m

get-missing :
    (store : Store) (key : Key) (now : ℕ)
    → lookup key store ≡ none
    → get store key now ≡ (none, store)
unfolding get
get-missing store key now h = rw h refl

module _ (platform : Platform) {S : Type 0} (app : App S) (ttl_seconds : ℕ) where
  abbrev pub answer_to : Key → Bytes → CachedResponse → Outcome
  answer_to key body entry =
      if text_eq entry.body_hash (platform.sha256 body)
      then answered (cached_response entry)
      else answered (conflict_response platform key.1)

  -- A request whose key has a live entry is answered from the entry alone.
  pub call-hit :
      (now sent : ℕ) (req : Request) (key : Key) (store : Store) (s : S) (entry : CachedResponse)
      → key_of platform req ≡ some key
      → lookup key store ≡ some entry
      → now ≤ entry.expires_at
      → call platform app ttl_seconds now sent req (store, s)
        ≡ (answer_to key (collect_body req.incoming) entry, (store, s))
  unfolding call respond
  call-hit now sent req key store s entry k found h =
      rw (k, get-alive store key now entry found h) refl

  -- A request whose key has no entry reaches the application.
  call-forwarded :
      (now sent : ℕ) (req : Request) (key : Key) (store : Store) (s : S)
      → key_of platform req ≡ some key
      → lookup key store ≡ none
      → (call platform app ttl_seconds now sent req (store, s)).0
        ≡ (app (replayed req (collect_body req.incoming)) s).0
  unfolding call respond forward
  call-forwarded now sent req key store s k h = rw (k, get-missing store key now h) refl

  abbrev entry_for : Bytes → ℕ → Response → CachedResponse
  entry_for body sent response =
      entry_of
        (record {
          status = response.status;
          headers = response.headers;
          body = concat response.chunks;
        })
        (platform.sha256 body) (sent + ttl_seconds)

  module _ (now sent : ℕ) (req : Request) (key : Key) (store : Store) (s s' : S)
      (response : Response) (keyed_by : key_of platform req ≡ some key)
      (miss : (get store key now).0 ≡ none)
      (ran : app (replayed req (collect_body req.incoming)) s ≡ (answered response, s')) where
    abbrev entry : CachedResponse
    entry = entry_for (collect_body req.incoming) sent response

    abbrev store_after : Store
    store_after =
        stored_if_cacheable key (platform.sha256 (collect_body req.incoming)) (sent + ttl_seconds)
          (record {
            status = response.status;
            headers = response.headers;
            body = concat response.chunks;
          })
          (get store key now).1

    call-miss :
        call platform app ttl_seconds now sent req (store, s)
        ≡ (answered response, (store_after, s'))
    unfolding call respond forward
    call-miss = rw keyed_by (
        ap
          (λ o.
            respond platform app ttl_seconds key (collect_body req.incoming) sent req
              (o, (get store key now).1) s)
          miss
        ∙ ap
            (λ r. (
              r.0,
              (
                captured_store platform app ttl_seconds key
                    (platform.sha256 (collect_body req.incoming)) sent r.0 (get store key now).1,
                r.1,
              ),
            ))
            ran
        ∙ ap (λ (t : Store). (answered response, (t, s')))
            (capture-response key (platform.sha256 (collect_body req.incoming)) (sent + ttl_seconds)
              response (get store key now).1))

    -- A keyed request that finds no live entry, and that the application answers with a success, is
    -- answered by the application. A later request with the same key that is looked up before the
    -- entry expires does not reach the application, and changes nothing: with a body of the same hash
    -- it is answered by the same status, headers and body, and with any other by the conflict.
    pub call-twice :
        is_cacheable response.status ≡ true
        → (later later_sent : ℕ) (again : Request) → key_of platform again ≡ some key
        → later ≤ sent + ttl_seconds
        → (call platform app ttl_seconds now sent req (store, s)
            ≡ (answered response, (store_after, s')))
          × (call platform app ttl_seconds later later_sent again (store_after, s') ≡ (
            if text_eq
                  (platform.sha256 (collect_body req.incoming))
                  (platform.sha256 (collect_body again.incoming))
                then answered (record {
                  status = response.status;
                  headers = response.headers;
                  chunks = concat response.chunks ∷ [];
                })
                else answered (conflict_response platform key.1),
            (store_after, s'),
          ))
    call-twice success later later_sent again same_key h = (
      call-miss,
      call-hit later later_sent again key store_after s' entry same_key
          (rw success (lookup-insert_self key entry (get store key now).1)) h,
    )

    -- An answer that is no success, and a raise, leave nothing behind: the next request with the key
    -- reaches the application.
    pub call-failure :
        is_cacheable response.status ≡ false
        → (later later_sent : ℕ) (again : Request) → key_of platform again ≡ some key
        → (call platform app ttl_seconds later later_sent again
            (call platform app ttl_seconds now sent req (store, s)).1).0
          ≡ (app (replayed again (collect_body again.incoming)) s').0
    unfolding forward
    call-failure failure later later_sent again same_key =
        ap (λ r. (call platform app ttl_seconds later later_sent again r.1).0) call-miss
        ∙ ap (λ (t : Store). (call platform app ttl_seconds later later_sent again (t, s')).0) kept
        ∙ call-forwarded later later_sent again key (get store key now).1 s' same_key
            (get-gone store key now miss)
      where
        kept : store_after ≡ (get store key now).1
        kept = rw failure refl
