-- ===== src/RateLimit/Quota.antt =====
-- How many requests a bucket lets through.
use opencord_server.Base.{
  ℕ, ◌+◌, ◌-◌, ◌*◌, ◌≤◌, ◌<◌, List, [], ◌∷◌, none, some, Text, length, All, text_eq, text_eqb_iff,
  ◌≡◌, refl, arith, ◌≢◌, min, ◌∙◌, inl, inr, Option-cases,
}
use native.Mathlib.Decide.{dec_lt}
use opencord_server.Base.Map.{get, get-insert, get-insert_ne}
use opencord_server.RateLimit.{
  BucketState, FixedWindowRateLimiter, current_bucket, check_bucket, check,
}
use opencord_server.RateLimit.Counting.{
  allowed_count, count_from, allowed_count-count_from, count_from-full, count_from-free,
  count_from-in_window, count_from-le_new, count_from-le,
}

-- No bucket has counted past the limit.
abbrev pub WithinLimit : FixedWindowRateLimiter → Type 0
WithinLimit l = (k : Text) (b : BucketState) → get l.buckets k ≡ some b → b.count ≤ l.limit

-- If no bucket is counted past the limit, `check` counts none past it, so its u32 counter does not
-- overflow.
pub check-WithinLimit :
    (now : ℕ) (bucket : Text) (l : FixedWindowRateLimiter)
    → WithinLimit l
    → WithinLimit (check now bucket l).1
unfolding check
check-WithinLimit now bucket l h k b e = ground (
  arith,
  get-insert l.buckets bucket k
      (check_bucket l.limit l.window now bucket
        (current_bucket l.window now (get l.buckets bucket))).1,
  text_eqb_iff bucket k,
  h k b,
  h bucket,
)

-- `check` touches no bucket but the one that it is asked about.
pub check_other :
    (now : ℕ) (bucket k : Text) (l : FixedWindowRateLimiter)
    → bucket ≢ k
    → get (check now bucket l).1.buckets k ≡ get l.buckets k
unfolding check
check_other now bucket k l h = get-insert_ne l.buckets bucket k _ h

-- A bucket that has not been asked about lets exactly the first `limit` of the requests through
-- that come within one window of the first.
pub allowed_count-fresh :
    (bucket : Text) (l : FixedWindowRateLimiter) (first : ℕ) (times : List ℕ)
    → get l.buckets bucket ≡ none
    → All (λ t. t < first + l.window) (first ∷ times)
    → allowed_count bucket l (first ∷ times) ≡ min (length (first ∷ times)) l.limit
allowed_count-fresh bucket l first times new (h, hs) =
    let start : BucketState = record { started_at = first; count = 0 } in
    let begins : current_bucket l.window first none ≡ start = unfold current_bucket in refl in
    let total : allowed_count bucket l (first ∷ times)
        ≡ count_from l.limit l.window bucket none (first ∷ times) =
      rw new at (allowed_count-count_from bucket l (first ∷ times)) in
    elim (dec_lt 0 l.limit) [
      | yes free ↦ omega (
        arith,
        total,
        count_from-free l.limit l.window bucket none start first times begins free,
        count_from-in_window l.limit l.window bucket (record start { count = 1 }) times
            (omega arith) hs,
      )
      | no full ↦ omega (
        arith,
        total,
        count_from-full l.limit l.window bucket none start first times begins (omega arith),
        count_from-in_window l.limit l.window bucket start times (omega arith) hs,
      )
    ]

-- Whatever the state of a bucket, if the window is not zero, the requests of one bucket
-- whose times lie in a stretch as long as the window, in any order, are let through at most
-- twice the limit.
pub allowed_count-le :
    (bucket : Text) (l : FixedWindowRateLimiter) (from : ℕ) (times : List ℕ)
    → 0 < l.window
    → All (λ t. (from ≤ t) × (t < from + l.window)) times
    → allowed_count bucket l times ≤ 2 * l.limit
allowed_count-le bucket l from [] pos h = unfold allowed_count in omega arith
allowed_count-le bucket l from (now ∷ times) pos (h, hs) =
    elim (Option-cases (get l.buckets bucket)) [
      | inl new ↦
          let total : allowed_count bucket l (now ∷ times)
              ≡ count_from l.limit l.window bucket none (now ∷ times) =
            rw new at (allowed_count-count_from bucket l (now ∷ times)) in
          omega (arith, total, count_from-le_new l.limit l.window bucket from now times pos h hs)
      | inr (b, old) ↦
          let total : allowed_count bucket l (now ∷ times)
              ≡ count_from l.limit l.window bucket (some b) (now ∷ times) =
            rw old at (allowed_count-count_from bucket l (now ∷ times)) in
          omega
            (arith, total, count_from-le l.limit l.window bucket from b (now ∷ times) pos (h, hs))
    ]

pub allowed_count-in_window :
    (bucket : Text) (l : FixedWindowRateLimiter) (b : BucketState) (times : List ℕ)
    → 0 < l.window
    → get l.buckets bucket ≡ some b
    → All (λ t. t < b.started_at + l.window) times
    → allowed_count bucket l times ≡ min (length times) (l.limit - b.count)
allowed_count-in_window bucket l b times pos found h =
    (rw found at (allowed_count-count_from bucket l times))
    ∙ count_from-in_window l.limit l.window bucket b times pos h
