-- ===== src/Tenancy/Idempotency/Interleaving/Overlap.antt =====
-- Two requests that overlap, in the steps of the idempotency middleware of
-- src/hawiya/tenancy/idempotency.py.
use hawiya_ai.Prelude.{
  ℕ, ◌≡◌, refl, sym, ◌∙◌, ap, Bool, true, false, Option, none, some, ◌∷◌, arith, ltb, if◌then◌else◌,
}
use mathlib.Core.Path.{subst}
use hawiya_ai.Extractors.Classifier.{Bytes}
use hawiya_ai.Dict.{lookup, remove, lookup-remove_self}
use hawiya_ai.Tenancy.Http.{Response, Platform, Key, key_Eq}
use hawiya_ai.Tenancy.Idempotency.{CachedResponse, Store, get, unexpired}
use hawiya_ai.Tenancy.Idempotency.Interleaving.{
  Forwarded, State, Takes, this, forwarded, put_response, Step, arrive, answer,
}

module _ (platform : Platform) (ttl_seconds : ℕ) where
  -- After a lookup that misses, the key is not in the store.
  unexpired-missed :
      (store : Store) (key : Key) (now : ℕ) (o : Option CachedResponse)
      → lookup key store ≡ o
      → (unexpired store key now o).0 ≡ none
      → lookup key (unexpired store key now o).1 ≡ none
  unexpired-missed store key now none found h = found
  unexpired-missed store key now (some entry) found h = expiry (ltb entry.expires_at now) h
    where
      expiry :
          (b : Bool)
          → (if◌then◌else◌ {A = Option CachedResponse × Store} b
              (none, remove key store)
              (some entry, store)).0
            ≡ none
          → lookup key
              (if◌then◌else◌ {A = Option CachedResponse × Store} b
                (none, remove key store)
                (some entry, store)).1
            ≡ none
      expiry true h = lookup-remove_self key store
      expiry false h = absurd (ground arith)

  get-missed :
      (store : Store) (key : Key) (now : ℕ)
      → (get store key now).0 ≡ none
      → lookup key (get store key now).1 ≡ none
  unfolding get
  get-missed store key now h = unexpired-missed store key now (lookup key store) refl h

  -- A key that is not in the store is missed, whatever the time.
  get-missing :
      (store : Store) (key : Key) (now : ℕ)
      → lookup key store ≡ none
      → get store key now ≡ (none, store)
  unfolding get
  get-missing store key now h = ap (unexpired store key now) h

  -- A request whose lookup at the time `now` misses is forwarded. While it waits for the application,
  -- another with the same key and body, whose lookup is at any time `again`, is forwarded too: both are
  -- pending at once, none is answered, and the store has no entry for the key, so that none has expired
  -- in between. The application then answers both, each with an answer of its own, and the answers are
  -- captured at the times `sent` and `resent`, whatever they are.
  pub Step-twice :
      (st : State) (key : Key) (body : Bytes) (now again sent resent : ℕ)
      (response other : Response)
      → (get st.store key now).0 ≡ none
      → (one two three last : State) × Step platform ttl_seconds st one
        × Step platform ttl_seconds one two
        × Step platform ttl_seconds two three
        × Step platform ttl_seconds three last
        × (one.store ≡ (get st.store key now).1)
        × (two.store ≡ (get one.store key again).1)
        × (three.store
            ≡ put_response platform ttl_seconds
                (record { key = key; body = body })
                response
                sent
                two.store)
        × (last.store
            ≡ put_response platform ttl_seconds
                (record { key = key; body = body })
                other
                resent
                three.store)
        × (one.pending ≡ record { key = key; body = body } ∷ st.pending)
        × (two.pending
            ≡ record { key = key; body = body } ∷ record { key = key; body = body } ∷ st.pending)
        × (two.log ≡ st.log)
        × (lookup key two.store ≡ none)
        × (last.pending ≡ st.pending)
        × (last.log
            ≡ record { key = key; body = body; response = other }
              ∷ record { key = key; body = body; response = response }
              ∷ st.log)
  Step-twice st key body now again sent resent response other missed =
      let p : Forwarded = record { key = key; body = body } in
      let first : Option CachedResponse × Store = get st.store key now in
      let second : Option CachedResponse × Store = get first.1 key again in
      let absent : lookup key first.1 ≡ none = get-missed st.store key now missed in
      let missing : second ≡ (none, first.1) = get-missing first.1 key again absent in
      let waiting : forwarded platform ttl_seconds key body first.0 st.pending ≡ p ∷ st.pending =
        ap (λ o. forwarded platform ttl_seconds key body o st.pending) missed in
      let both_waiting : forwarded platform ttl_seconds key body second.0
            (forwarded platform ttl_seconds key body first.0 st.pending)
          ≡ p ∷ p ∷ st.pending =
        ap
          (λ r.
            forwarded platform ttl_seconds key body r.0
              (forwarded platform ttl_seconds key body first.0 st.pending))
          missing
        ∙ ap (λ ps. p ∷ ps) waiting in
      (
        _,
        _,
        _,
        _,
        arrive key body now,
        arrive key body again,
        answer p response sent (subst (λ l. Takes p l (p ∷ st.pending)) (sym both_waiting) this),
        answer p other resent this,
        refl,
        refl,
        refl,
        refl,
        waiting,
        both_waiting,
        refl,
        ap (λ r. lookup key r.1) missing ∙ absent,
        refl,
        refl,
      )
