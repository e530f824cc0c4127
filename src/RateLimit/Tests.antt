-- ===== src/RateLimit/Tests.antt =====
-- Tests of the rate limiter, and its theorems at concrete inputs.
use opencord_server.Base.{
  ◌+◌, ◌≤◌, min, true, false, [], ◌∷◌, some, Text, text, text_eq, text_eqb, ◌≡◌, refl, arith, ◌≢◌,
}
use opencord_server.Base.Map.{get, insert}
use opencord_server.RateLimit.{
  BucketState, FixedWindowRateLimiter, new_limiter, from_secs, check, clear, auth_login,
}
use opencord_server.RateLimit.Counting.{allowed_count}
use opencord_server.RateLimit.Quota.{WithinLimit, allowed_count-fresh, allowed_count-le}
use opencord_server.RateLimit.Retry.{remaining_exact, retry_enough, retry_too_early}

abbrev bucket : Text
bucket = text "b"

-- A limiter whose bucket is used up, from the instant 0 on.
abbrev used_up : FixedWindowRateLimiter
used_up = record auth_login { buckets = (bucket, record { started_at = 0; count = 5 }) ∷ [] }

-- The source's own test: `clear` resets the buckets.
clear_resets :
    let l = (check 0 bucket (new_limiter 1 (from_secs 60))).1 in
    ((check 1 bucket l).0.allowed ≡ false)
    × ((clear l).0 ≡ 1)
    × ((check 2 bucket (clear l).1).0.allowed ≡ true)
unfolding check clear get insert text_eqb
clear_resets = (refl, refl, refl)

used_up_within : WithinLimit used_up
unfolding get
used_up_within k b e = ground arith

a≢b : text "a" ≢ text "b"
a≢b e = ground (arith, e)

allowed_count-fresh_example : allowed_count bucket auth_login (10 ∷ 20 ∷ 30 ∷ []) ≡ min 3 5
unfolding get
allowed_count-fresh_example =
    allowed_count-fresh bucket auth_login 10 (20 ∷ 30 ∷ []) refl (omega arith)

allowed_count-le_example : allowed_count bucket used_up (from_secs 61 ∷ from_secs 62 ∷ []) ≤ 10
allowed_count-le_example =
    allowed_count-le bucket used_up (from_secs 61) (from_secs 61 ∷ from_secs 62 ∷ []) (omega arith)
      (omega arith)

remaining_exact_example :
    allowed_count bucket (check 10 bucket auth_login).1 (20 ∷ 30 ∷ [])
    ≡ min 2 (check 10 bucket auth_login).0.remaining
unfolding check get insert text_eqb
remaining_exact_example =
    remaining_exact bucket auth_login 10 (20 ∷ 30 ∷ []) (record { started_at = 10; count = 1 })
      (omega arith) refl refl (omega arith)

used_up_begun : (b : BucketState) → get used_up.buckets bucket ≡ some b → b.started_at ≤ from_secs 1
unfolding get text_eqb
used_up_begun b e = ground arith

retry_enough_example :
    (check (from_secs 61) bucket (check (from_secs 1) bucket used_up).1).0.allowed ≡ true
unfolding check get insert text_eqb
retry_enough_example =
    retry_enough bucket used_up (from_secs 1) (from_secs 61) (omega arith) used_up_begun refl
      (omega arith)

-- Half a second into the window 59.5 seconds are left, and 59 are announced.
retry_too_early_example :
    let first = check 500000000 bucket used_up in
    (first.0.allowed ≡ false)
    × ((check (500000000 + from_secs first.0.reset_after_seconds) bucket first.1).0.allowed ≡ false)
unfolding get text_eqb
retry_too_early_example =
    retry_too_early bucket used_up 500000000 (record { started_at = 0; count = 5 }) refl
      (omega arith) (omega arith) (omega arith) (omega arith)
