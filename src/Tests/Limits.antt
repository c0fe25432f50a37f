-- ===== src/Tests/Limits.antt =====
-- Witnesses for the rate limiter.
use hawiya_ai.Prelude.{◌+◌, ◌-◌, ◌*◌, ◌≤◌, ◌≡◌, refl, List, ℕ, [], ◌∷◌, arith}
use hawiya_ai.Tenancy.RateLimit.{
  token, Bucket, take, refilled, consume, verdict, retry_after, allowed, check, bucket_for,
  RateLimiter,
}
use hawiya_ai.Tenancy.RateLimit.Allowance.{run, run-bound}
use hawiya_ai.Tenancy.RateLimit.Isolation.{own, verdicts, verdicts-own}
use hawiya_ai.Tenancy.Http.{Key, key_eq, key_Eq}
use hawiya_ai.Text.{text, text_eq}
use hawiya_ai.Dict.{lookup, insert}

-- Two calls a minute, none left.
abbrev empty : Bucket
empty = record { capacity = 2; tokens = 0; rate_per_minute = 2; last_refill = 0 }

abbrev times : List ℕ
times = 5 ∷ 5 ∷ 45000000000 ∷ []

run-bound_example : (run empty times).0 * token ≤ 0 + (60000000000 - 0) * 2
run-bound_example =
    run-bound empty times 60000000000 (omega arith, (omega arith, (omega arith, omega arith)))

refused : verdict (take empty 0).0 ≡ retry_after 30
unfolding verdict take refilled consume
refused = refl

abbrev limiter : RateLimiter
limiter = record { default_per_minute = 1; buckets = [] }

-- Two tenants, a call each, and one more of the first.
abbrev calls : List (Key × ℕ)
calls = ((1, text "read"), 0) ∷ ((2, text "read"), 0) ∷ ((1, text "read"), 1000000000) ∷ []

verdicts-own_example :
    own (2, text "read") (verdicts limiter calls) ≡ verdicts limiter (own (2, text "read") calls)
verdicts-own_example = verdicts-own (2, text "read") limiter calls

third_refused :
    verdicts limiter calls
    ≡ ((1, text "read"), allowed)
      ∷ ((2, text "read"), allowed)
      ∷ ((1, text "read"), retry_after 59)
      ∷ []
unfolding verdicts check take verdict bucket_for refilled consume lookup insert key_eq text_eq
third_refused = refl
