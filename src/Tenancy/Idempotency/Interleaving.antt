-- ===== src/Tenancy/Idempotency/Interleaving.antt =====
-- Requests that overlap: between `store.get` and `store.put` of src/hawiya/tenancy/idempotency.py the
-- middleware awaits the application, and other requests run.
pub mod Overlap
use hawiya_ai.Prelude.{
  some_injective, ℕ, ◌+◌, ◌≡◌, refl, sym, ◌∙◌, ap, ◌⊎◌, inl, inr, Bool, true, false, Option, none,
  some, List, [], ◌∷◌, arith, ltb, Bool-cases, if◌then◌else◌,
}
use hawiya_ai.Extractors.Classifier.{Bytes}
use hawiya_ai.Dict.{
  lookup, insert, remove, lookup-insert_self, lookup-insert_other, lookup-remove_self,
  lookup-remove_other,
}
use hawiya_ai.Tenancy.Http.{Response, Platform, Key, key_eq, key_eq_iff, key_Eq}
use hawiya_ai.Tenancy.Idempotency.{
  CachedResponse, Store, get, unexpired, Captured, entry_of, is_cacheable, capture_all, messages_of,
  nothing_captured,
}
use hawiya_ai.Tenancy.Idempotency.Replay.{concat, capture-response}

-- A request that was forwarded, and one that the application has answered.
pub record Forwarded : Type 0 where
  pub key : Key
  pub body : Bytes

pub record Execution : Type 0 where
  pub key : Key
  pub body : Bytes
  pub response : Response

pub record State : Type 0 where
  pub store : Store
  pub pending : List Forwarded
  pub log : List Execution

abbrev pub start : State
start = record { store = []; pending = []; log = [] }

-- What is left when one of the requests is done.
pub data Takes (p : Forwarded) : List Forwarded → List Forwarded → Type 0 where
  this : {ps : List Forwarded} → Takes p (p ∷ ps) ps
  there : {q : Forwarded} {ps qs : List Forwarded} → Takes p ps qs → Takes p (q ∷ ps) (q ∷ qs)

module _ (platform : Platform) (ttl_seconds : ℕ) where
  abbrev pub forwarded : Key → Bytes → Option CachedResponse → List Forwarded → List Forwarded
  forwarded key body none ps = record { key = key; body = body } ∷ ps
  forwarded key body (some entry) ps = ps

  abbrev pub put_response : Forwarded → Response → ℕ → Store → Store
  put_response p response sent store =
      (capture_all p.key (platform.sha256 p.body) (sent + ttl_seconds) (messages_of response)
        (nothing_captured, store)).1

  -- A request is looked up, and forwarded on a miss; the application answers a forwarded request, and
  -- the answer is captured; or it raises.
  pub data Step (st : State) : State → Type 0 where
    arrive :
        (key : Key) (body : Bytes) (now : ℕ)
        → Step st (record st {
          store = (get st.store key now).1;
          pending = forwarded key body (get st.store key now).0 st.pending;
        })
    answer :
        {ps : List Forwarded} (p : Forwarded) (response : Response) (sent : ℕ)
        → Takes p st.pending ps
        → Step st (record {
          store = put_response p response sent st.store;
          pending = ps;
          log = record { key = p.key; body = p.body; response = response } ∷ st.log;
        })
    fail :
        {ps : List Forwarded} (p : Forwarded)
        → Takes p st.pending ps
        → Step st (record st { pending = ps })

  -- The states that requests lead to from the empty store.
  pub data Reach : State → Type 0 where
    here : Reach start
    next : {st st' : State} → Reach st → Step st st' → Reach st'

  -- The entry repeats a success that the application gave to a request with this key and body hash.
  abbrev pub Repeats : Key → CachedResponse → Execution → Type 0
  Repeats key entry x =
      (x.key ≡ key)
      × (platform.sha256 x.body ≡ entry.body_hash)
      × (x.response.status ≡ entry.status)
      × (x.response.headers ≡ entry.headers)
      × (concat x.response.chunks ≡ entry.body)
      × (is_cacheable entry.status ≡ true)

  abbrev pub Any : (Execution → Type 0) → List Execution → Type 0
  Any P [] = ⊥
  Any P (x ∷ xs) = P x ⊎ Any P xs

  abbrev pub IsBacked : State → Type 0
  IsBacked st =
      (key : Key) (entry : CachedResponse)
      → lookup key st.store ≡ some entry
      → Any (Repeats key entry) st.log

  -- What a lookup leaves is what was there.
  lookup-removed :
      (store : Store) (key other : Key) (entry : CachedResponse)
      → lookup other (remove key store) ≡ some entry
      → lookup other store ≡ some entry
  lookup-removed store key other entry h = elim (Bool-cases (key_eq key other)) [
    | inl e ↦
        let gone : lookup other (remove key store) ≡ none =
          ap (λ k. lookup k (remove key store)) (sym ((key_eq_iff key other).0 e))
          ∙ lookup-remove_self key store in
        absurd (ground arith)
    | inr e ↦ sym (lookup-remove_other key other store e) ∙ h
  ]

  lookup-unexpired :
      (store : Store) (key other : Key) (now : ℕ) (o : Option CachedResponse)
      (entry : CachedResponse)
      → lookup other (unexpired store key now o).1 ≡ some entry
      → lookup other store ≡ some entry
  lookup-unexpired store key other now none entry h = h
  lookup-unexpired store key other now (some e) entry h = unexpired_case (ltb e.expires_at now) h
    where
      unexpired_case :
          (b : Bool)
          → lookup other
              (if◌then◌else◌ {A = Option CachedResponse × Store} b
                (none, remove key store)
                (some e, store)).1
            ≡ some entry
          → lookup other store ≡ some entry
      unexpired_case true h = lookup-removed store key other entry h
      unexpired_case false h = h

  lookup-inserted :
      (p : Forwarded) (whole : Captured) (expires_at : ℕ) (store : Store) (key : Key)
      (entry : CachedResponse)
      → lookup key (insert p.key (entry_of whole (platform.sha256 p.body) expires_at) store)
        ≡ some entry
      → ((p.key ≡ key) × (entry_of whole (platform.sha256 p.body) expires_at ≡ entry))
        ⊎ (lookup key store ≡ some entry)
  lookup-inserted p whole expires_at store key entry h =
      let new : CachedResponse = entry_of whole (platform.sha256 p.body) expires_at in
      elim (Bool-cases (key_eq p.key key)) [
        | inl e ↦
            let same : p.key ≡ key = (key_eq_iff p.key key).0 e in
            let found : some new ≡ some entry =
              sym (lookup-insert_self p.key new store)
              ∙ ap (λ k. lookup k (insert p.key new store)) same
              ∙ h in
            inl (same, some_injective found)
        | inr e ↦ inr (sym (lookup-insert_other p.key key new store e) ∙ h)
      ]

  abbrev whole_of : Response → Captured
  whole_of response = record {
    status = response.status;
    headers = response.headers;
    body = concat response.chunks;
  }

  put_case :
      (p : Forwarded) (response : Response) (sent : ℕ) (store : Store) (key : Key)
      (entry : CachedResponse) (cacheable : Bool)
      → is_cacheable response.status ≡ cacheable
      → lookup key (
          if cacheable
          then insert p.key
              (entry_of (whole_of response) (platform.sha256 p.body) (sent + ttl_seconds))
              store
          else store)
        ≡ some entry
      → Repeats key entry (record { key = p.key; body = p.body; response = response })
        ⊎ (lookup key store ≡ some entry)
  put_case p response sent store key entry false c h = inr h
  put_case p response sent store key entry true c h =
      elim (lookup-inserted p (whole_of response) (sent + ttl_seconds) store key entry h) [
        | inr old ↦ inr old
        | inl (same, e) ↦ inl (
          same,
          ap (λ x. x.body_hash) e,
          ap (λ x. x.status) e,
          ap (λ x. x.headers) e,
          ap (λ x. x.body) e,
          ap (λ x. is_cacheable x.status) (sym e) ∙ c,
        )
      ]

  lookup-put :
      (p : Forwarded) (response : Response) (sent : ℕ) (store : Store) (key : Key)
      (entry : CachedResponse)
      → lookup key (put_response p response sent store) ≡ some entry
      → Repeats key entry (record { key = p.key; body = p.body; response = response })
        ⊎ (lookup key store ≡ some entry)
  lookup-put p response sent store key entry h =
      put_case p response sent store key entry (is_cacheable response.status) refl (
        ap (lookup key) (
          sym (capture-response p.key (platform.sha256 p.body) (sent + ttl_seconds) response store))
        ∙ h)

  Step-IsBacked : {st st' : State} → Step st st' → IsBacked st → IsBacked st'
  unfolding get
  Step-IsBacked (arrive key body now) b =
      λ other entry h. b other entry (lookup-unexpired _ key other now _ entry h)
  Step-IsBacked {st} (answer p response sent t) b = λ key entry h.
      elim (lookup-put p response sent st.store key entry h) [
        | inl new ↦ inl new
        | inr old ↦ inr (b key entry old)
      ]
  Step-IsBacked (fail p t) b = b

  -- However requests overlap, an entry of the store repeats a success that the application gave to a
  -- request of the same tenant with the same key and a body of the same hash.
  pub Reach-IsBacked : (st : State) → Reach st → IsBacked st
  unfolding lookup
  Reach-IsBacked st here = λ key entry h. absurd (ground arith)
  Reach-IsBacked st (next r step) = Step-IsBacked step (Reach-IsBacked _ r)
