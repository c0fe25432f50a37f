-- ===== src/Tenancy/RateLimit.antt =====
-- src/hawiya/tenancy/rate_limit.py: token buckets. Floats are exact numbers here: a time is a number of
-- nanoseconds, and tokens are counted in units of which a whole token has 60 · 10⁹, so that a bucket of
-- n tokens per minute regains n units in a nanosecond. The source rounds each product and sum to a
-- double, so a bucket may hold a little less or more than here; where this model holds a whole token
-- exactly, the source may hold 0.9999999999999999 of one and refuse.
pub mod Allowance
pub mod Dispatch
pub mod Isolation
use hawiya_ai.Prelude.{
  ℕ, ◌+◌, ◌-◌, ◌*◌, ◌/◌, min, max, Bool, true, false, ◌&&◌, ◌||◌, Option, none, some, List, [], ◌∷◌,
  ◌++◌, ◌==◌, leb, if◌then◌else◌,
}
use hawiya_ai.Text.{Text, text, text_eq, starts_with}
use hawiya_ai.Models.{Uuid}
use hawiya_ai.Dict.{lookup, insert}
use hawiya_ai.Tenancy.Http.{Key, key_Eq}

abbrev pub token : ℕ
token = 60000000000

abbrev pub second : ℕ
second = 1000000000

-- `_ENDPOINT_CLASSES`, and the loop of `classify_endpoint`.
abbrev pub endpoint_classes : List (Text × Text)
endpoint_classes =
    (text "/v1/documents/extract", text "extract")
    ∷ (text "/v1/identity/resolve", text "extract")
    ∷ (text "/v1/persons/search", text "read")
    ∷ (text "/v1/persons", text "read")
    ∷ []

unfoldable pub class_among : List (Text × Text) → Text → Option Text
class_among [] path = none
class_among ((prefix, klass) ∷ classes) path =
    let rest = class_among classes path in
    if text_eq path prefix || starts_with (prefix ++ text "/") path then some klass else rest

unfoldable pub classify_endpoint : Text → Option Text
classify_endpoint path = class_among endpoint_classes path

-- `_Bucket`; the rate is given per minute.
pub record Bucket : Type 0 where
  pub capacity : ℕ
  pub tokens : ℕ
  pub rate_per_minute : ℕ
  pub last_refill : ℕ

-- A number of seconds as a quotient; over zero it is `math.inf`.
pub record Seconds : Type 0 where
  pub numerator : ℕ
  pub denominator : ℕ

-- `self.tokens` behind the refill, with no rounding of the source's floats. The clock may step back;
-- then nothing is regained.
unfoldable pub refilled : Bucket → ℕ → ℕ
refilled bucket now =
    min (bucket.capacity * token)
      (bucket.tokens + (now - bucket.last_refill) * bucket.rate_per_minute)

-- The end of `take`, on the test.
unfoldable pub consume : Bucket → (now tokens : ℕ) → Bool → Option Seconds × Bucket
consume bucket now tokens enough =
    if enough then (none, record bucket { tokens = tokens - token; last_refill = now }) else (
      some (record { numerator = token - tokens; denominator = bucket.rate_per_minute * second }),
      record bucket { tokens = tokens; last_refill = now },
    )

-- `_Bucket.take`, over exact numbers: at a refill to just one token the source's floats may decide
-- otherwise.
unfoldable pub take : Bucket → ℕ → Option Seconds × Bucket
take bucket now = let tokens = refilled bucket now in consume bucket now tokens (leb token tokens)

pub record RateLimiter : Type 0 where
  pub default_per_minute : ℕ
  pub buckets : List (Key × Bucket)

abbrev pub new_bucket : ℕ → ℕ → Bucket
new_bucket per_minute now = record {
  capacity = per_minute;
  tokens = per_minute * token;
  rate_per_minute = per_minute;
  last_refill = now;
}

-- `_bucket_for`: the bucket of a key, a full one if there is none. `check` stores it in either case.
abbrev pub bucket_or_new : ℕ → ℕ → Option Bucket → Bucket
bucket_or_new per_minute now none = new_bucket per_minute now
bucket_or_new per_minute now (some bucket) = bucket

unfoldable pub bucket_for : RateLimiter → Key → ℕ → Bucket
bucket_for limiter key now =
    bucket_or_new limiter.default_per_minute now (lookup key limiter.buckets)

pub data Verdict : Type 0 where
  allowed : Verdict
  retry_after : ℕ → Verdict
  overflow_error : Verdict

-- `max(1.0, math.ceil(retry))`; `math.ceil` raises on `math.inf`.
abbrev pub rounded_up : Seconds → (infinite : Bool) → Verdict
rounded_up wait true = overflow_error
rounded_up wait false =
    retry_after (max 1 ((wait.numerator + (wait.denominator - 1)) / wait.denominator))

unfoldable pub verdict : Option Seconds → Verdict
verdict none = allowed
verdict (some wait) = rounded_up wait (wait.denominator == 0)

-- `RateLimiter.check`.
unfoldable pub check : RateLimiter → Uuid → Text → ℕ → Verdict × RateLimiter
check limiter tenant_id endpoint_class now =
    let (retry, bucket) = take (bucket_for limiter (tenant_id, endpoint_class) now) now in
    (
      verdict retry,
      record limiter { buckets = insert (tenant_id, endpoint_class) bucket limiter.buckets },
    )

abbrev clear : RateLimiter → RateLimiter
clear limiter = record limiter { buckets = [] }
