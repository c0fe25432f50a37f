-- ===== src/Tenancy/RateLimit/Allowance.antt =====
-- How many calls a token bucket of src/hawiya/tenancy/rate_limit.py lets through, and when.
use hawiya_ai.Prelude.{
  ℕ, ◌+◌, ◌-◌, ◌*◌, ◌≤◌, ◌≡◌, refl, sym, ◌∙◌, ap, ap₂, Bool, true, false, Option, none, some, List,
  [], ◌∷◌, arith, leb, leb→le,
}
use mathlib.Core.Path.{subst}
use native.Mathlib.Nat.{add-mul}
use hawiya_ai.Tenancy.RateLimit.{token, Bucket, Seconds, refilled, consume, take}

abbrev pub passed : Option Seconds → ℕ
passed none = 1
passed (some wait) = 0

-- The calls that pass among calls at these times, and the bucket behind them.
unfoldable pub run : Bucket → List ℕ → ℕ × Bucket
run bucket [] = (0, bucket)
run bucket (now ∷ times) =
    let (retry, next) = take bucket now in
    let (n, last) = run next times in (passed retry + n, last)

-- The times do not step back, from the start to the end.
abbrev pub IsClock : ℕ → List ℕ → ℕ → Type 0
IsClock start [] end = start ≤ end
IsClock start (now ∷ times) end = (start ≤ now) × IsClock now times end

clock-le : (start : ℕ) (times : List ℕ) (end : ℕ) → IsClock start times end → start ≤ end
clock-le start [] end h = h
clock-le start (now ∷ times) end h = let k = clock-le now times end h.1 in omega (arith, h.0)

consume-pays :
    (bucket : Bucket) (now tokens : ℕ) (enough : Bool)
    → leb token tokens ≡ enough
    → passed (consume bucket now tokens enough).0 * token
        + (consume bucket now tokens enough).1.tokens
      ≡ tokens
unfolding consume
consume-pays bucket now tokens true h = let le = leb→le token tokens h in omega arith
consume-pays bucket now tokens false h = omega arith

-- A call pays a whole token, or passes nothing.
take-pays :
    (bucket : Bucket) (now : ℕ)
    → passed (take bucket now).0 * token + (take bucket now).1.tokens ≡ refilled bucket now
unfolding take
take-pays bucket now =
    consume-pays bucket now (refilled bucket now) (leb token (refilled bucket now)) refl

-- It stamps the bucket, and keeps its rate.
consume-kept :
    (bucket : Bucket) (now tokens : ℕ) (enough : Bool)
    → ((consume bucket now tokens enough).1.last_refill ≡ now)
      × ((consume bucket now tokens enough).1.rate_per_minute ≡ bucket.rate_per_minute)
unfolding consume
consume-kept bucket now tokens true = (refl, refl)
consume-kept bucket now tokens false = (refl, refl)

take-kept :
    (bucket : Bucket) (now : ℕ)
    → ((take bucket now).1.last_refill ≡ now)
      × ((take bucket now).1.rate_per_minute ≡ bucket.rate_per_minute)
unfolding take
take-kept bucket now =
    consume-kept bucket now (refilled bucket now) (leb token (refilled bucket now))

refilled-bound :
    (bucket : Bucket) (now : ℕ)
    → refilled bucket now ≤ bucket.tokens + (now - bucket.last_refill) * bucket.rate_per_minute
unfolding refilled
refilled-bound bucket now =
    let gain : ℕ = (now - bucket.last_refill) * bucket.rate_per_minute in omega arith

-- Time that passes in two parts is worth as much as in one.
later_gain :
    (start now end rate : ℕ)
    → start ≤ now
    → now ≤ end
    → (now - start) * rate + (end - now) * rate ≡ (end - start) * rate
later_gain start now end rate h k =
    let e : (now - start) + (end - now) ≡ end - start = omega arith in
    sym (add-mul (now - start) (end - now) rate) ∙ ap (λ n. n * rate) e

-- Over calls at times that do not step back, a bucket lets no more calls through than the tokens
-- that it holds and those that its rate regains until any time that is not before the last call.
pub run-bound :
    (bucket : Bucket) (times : List ℕ) (end : ℕ)
    → IsClock bucket.last_refill times end
    → (run bucket times).0 * token
      ≤ bucket.tokens + (end - bucket.last_refill) * bucket.rate_per_minute
unfolding run
run-bound bucket [] end h = omega arith
run-bound bucket (now ∷ times) end (h, k) =
    let next : Bucket = (take bucket now).1 in
    let n : ℕ = (run next times).0 in
    let (stamp, rate) = take-kept bucket now in
    let rest : n * token ≤ next.tokens + (end - next.last_refill) * next.rate_per_minute =
      run-bound next times end (subst (λ t. IsClock t times end) (sym stamp) k) in
    let e : (end - next.last_refill) * next.rate_per_minute ≡ (end - now) * bucket.rate_per_minute =
      ap₂ (λ t r. (end - t) * r) stamp rate in
    let pays = take-pays bucket now in
    let bound = refilled-bound bucket now in
    let gain =
      later_gain bucket.last_refill now end bucket.rate_per_minute h (clock-le now times end k) in
    let split = add-mul (passed (take bucket now).0) n token in omega arith
