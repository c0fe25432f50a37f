-- ===== src/Tenancy/RateLimit/Isolation.antt =====
-- One tenant's calls do not use up another's: the keys of the `RateLimiter` in
-- src/hawiya/tenancy/rate_limit.py are apart.
use hawiya_ai.Prelude.{
  ℕ, ◌≡◌, refl, sym, ◌∙◌, ap, ap₂, Bool, true, false, some, List, [], ◌∷◌, filter,
}
use mathlib.Core.Path.{subst}
use hawiya_ai.Dict.{lookup, lookup-insert_self, lookup-insert_other}
use hawiya_ai.Tenancy.Http.{Key, key_eq, key_eq_iff, key_Eq}
use hawiya_ai.Tenancy.RateLimit.{
  RateLimiter, Verdict, take, verdict, bucket_or_new, bucket_for, check,
}

-- The verdicts on a sequence of calls, each with its key and its time.
unfoldable pub verdicts : RateLimiter → List (Key × ℕ) → List (Key × Verdict)
verdicts limiter [] = []
verdicts limiter (((tenant_id, endpoint_class), now) ∷ calls) =
    let (verdict, next) = check limiter tenant_id endpoint_class now in
    ((tenant_id, endpoint_class), verdict) ∷ verdicts next calls

-- What concerns one key.
abbrev pub own : {A : Type 0} → Key → List (Key × A) → List (Key × A)
own key = filter (λ x. key_eq x.0 key)

-- Two limiters that hold the same for a key.
record IsSameFor (key : Key) (l m : RateLimiter) : Type 0 where
  per_minute : l.default_per_minute ≡ m.default_per_minute
  bucket : lookup key l.buckets ≡ lookup key m.buckets

bucket_for-IsSameFor :
    (key : Key) (l m : RateLimiter) (now : ℕ)
    → IsSameFor key l m
    → bucket_for l key now ≡ bucket_for m key now
unfolding bucket_for
bucket_for-IsSameFor key l m now same =
    ap₂ (λ n b. bucket_or_new n now b) same.per_minute same.bucket

check-own :
    (key : Key) (l m : RateLimiter) (now : ℕ)
    → IsSameFor key l m
    → ((check l key.0 key.1 now).0 ≡ (check m key.0 key.1 now).0)
      × IsSameFor key (check l key.0 key.1 now).1 (check m key.0 key.1 now).1
unfolding check
check-own key l m now same =
    let e : take (bucket_for l key now) now ≡ take (bucket_for m key now) now =
      ap (λ b. take b now) (bucket_for-IsSameFor key l m now same) in
    (
      ap (λ r. verdict r.0) e,
      record {
        per_minute = same.per_minute;
        bucket =
            lookup-insert_self key _ l.buckets
            ∙ ap (λ r. some r.1) e
            ∙ sym (lookup-insert_self key _ m.buckets);
      },
    )

check-foreign :
    (key other : Key) (l m : RateLimiter) (now : ℕ)
    → key_eq other key ≡ false
    → IsSameFor key l m
    → IsSameFor key (check l other.0 other.1 now).1 m
unfolding check
check-foreign key other l m now ne same = record {
  per_minute = same.per_minute;
  bucket = lookup-insert_other other key _ l.buckets ne ∙ same.bucket;
}

-- The element of a filtered list, if its test is passed.
abbrev kept : {A : Type 0} → Bool → A → List A → List A
kept b x rest = elim b [ true ↦ x ∷ rest | false ↦ rest ]

call-own :
    (key other : Key) (l m : RateLimiter) (now : ℕ) (b : Bool) (rest : List (Key × Verdict))
    (calls : List (Key × ℕ))
    → key_eq other key ≡ b
    → IsSameFor key l m
    → ((r : RateLimiter)
        → IsSameFor key (check l other.0 other.1 now).1 r
        → rest ≡ verdicts r calls)
    → kept b (other, (check l other.0 other.1 now).0) rest ≡ verdicts m (kept b (other, now) calls)
unfolding verdicts
call-own key other l m now true rest calls e same next =
    let here : key ≡ other = sym ((key_eq_iff other key).0 e) in
    let (verdict, after) =
      check-own other l m now (subst (λ (k : Key). IsSameFor k l m) here same) in
    ap₂ (λ v vs. (other, v) ∷ vs) verdict
      (next (check m other.0 other.1 now).1 (
        subst
          (λ (k : Key). IsSameFor k (check l other.0 other.1 now).1 (check m other.0 other.1 now).1)
          (sym here) after))
call-own key other l m now false rest calls e same next =
    next m (check-foreign key other l m now e same)

verdicts-own_from :
    (key : Key) (l m : RateLimiter) (calls : List (Key × ℕ))
    → IsSameFor key l m
    → own key (verdicts l calls) ≡ verdicts m (own key calls)
unfolding verdicts
verdicts-own_from key l m [] same = refl
verdicts-own_from key l m ((other, now) ∷ calls) same =
    call-own key other l m now (key_eq other key)
      (own key (verdicts (check l other.0 other.1 now).1 calls)) (own key calls) refl same
      (λ r same'. verdicts-own_from key (check l other.0 other.1 now).1 r calls same')

-- However the calls of tenants and endpoint classes interleave, the verdicts for one tenant and class
-- are those that its calls would get alone.
pub verdicts-own :
    (key : Key) (limiter : RateLimiter) (calls : List (Key × ℕ))
    → own key (verdicts limiter calls) ≡ verdicts limiter (own key calls)
verdicts-own key limiter calls =
    verdicts-own_from key limiter limiter calls (record { per_minute = refl; bucket = refl })
