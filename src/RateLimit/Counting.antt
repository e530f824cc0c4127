-- ===== src/RateLimit/Counting.antt =====
-- The requests of one bucket that `check` in src/domain/rate_limit.rs lets through, counted from the
-- state of that bucket.
use opencord_server.Base.{
  ℕ, ◌+◌, ◌-◌, ◌≤◌, ◌<◌, true, false, leb, if◌then◌else◌, List, [], ◌∷◌, Option, none, some, Text,
  length, All, text_eq, ◌≡◌, refl, arith, min, inl, inr, ◌⊎◌, Bool-cases,
}
use native.Mathlib.Decide.{dec_lt}
use opencord_server.Base.Map.{get, get-insert_self}
use opencord_server.RateLimit.{
  BucketState, FixedWindowRateLimiter, current_bucket, check_bucket, check,
}

-- The number of requests for one bucket that are let through, at the given times.
unfoldable pub allowed_count : Text → FixedWindowRateLimiter → List ℕ → ℕ
allowed_count bucket l [] = 0
allowed_count bucket l (now ∷ times) =
    let (d, l') = check now bucket l in (if d.allowed then 1 else 0) + allowed_count bucket l' times

-- The same count, from the state of the one bucket.
unfoldable pub count_from : ℕ → ℕ → Text → Option BucketState → List ℕ → ℕ
count_from limit window bucket o [] = 0
count_from limit window bucket o (now ∷ times) =
    let (d, b) = check_bucket limit window now bucket (current_bucket window now o) in
    (if d.allowed then 1 else 0) + count_from limit window bucket (some b) times

pub allowed_count-count_from :
    (bucket : Text) (l : FixedWindowRateLimiter) (times : List ℕ)
    → allowed_count bucket l times ≡ count_from l.limit l.window bucket (get l.buckets bucket) times
unfolding allowed_count count_from
allowed_count-count_from bucket l [] = refl
allowed_count-count_from bucket l (now ∷ times) =
    let b =
      check_bucket l.limit l.window now bucket
        (current_bucket l.window now (get l.buckets bucket)) in
    rw (allowed_count-count_from bucket (check now bucket l).1 times)
      (unfold check in rw (get-insert_self l.buckets bucket b.1))

module _ (limit window : ℕ) (bucket : Text) where
  pub count_from-full :
      (o : Option BucketState) (b : BucketState) (now : ℕ) (times : List ℕ)
      → current_bucket window now o ≡ b
      → limit ≤ b.count
      → count_from limit window bucket o (now ∷ times)
        ≡ count_from limit window bucket (some b) times
  unfolding count_from check_bucket
  count_from-full o b now times e h =
      let full : leb limit b.count ≡ true = ground (arith, h) in rw (e, full) (omega arith)

  pub count_from-free :
      (o : Option BucketState) (b : BucketState) (now : ℕ) (times : List ℕ)
      → current_bucket window now o ≡ b
      → b.count < limit
      → count_from limit window bucket o (now ∷ times)
        ≡ 1 + count_from limit window bucket (some (record b { count = b.count + 1 })) times
  unfolding count_from check_bucket
  count_from-free o b now times e h =
      let free : leb limit b.count ≡ false = ground (arith, h) in rw (e, free)

  current_bucket-same :
      (b : BucketState) (now : ℕ)
      → 0 < window
      → now < b.started_at + window
      → current_bucket window now (some b) ≡ b
  unfolding current_bucket
  current_bucket-same b now pos h = ground arith

  current_bucket-cases :
      (b : BucketState) (now : ℕ)
      → (current_bucket window now (some b) ≡ b)
        ⊎ (current_bucket window now (some b) ≡ record { started_at = now; count = 0 })
  unfolding current_bucket
  current_bucket-cases b now = elim (Bool-cases (leb window (now - b.started_at))) [
    | inl over ↦ inr (rw over)
    | inr running ↦ inl (rw running)
  ]

  -- In the window that a bucket has begun, exactly the rest of its quota is let through.
  pub count_from-in_window :
      (b : BucketState) (times : List ℕ)
      → 0 < window
      → All (λ t. t < b.started_at + window) times
      → count_from limit window bucket (some b) times ≡ min (length times) (limit - b.count)
  count_from-in_window b [] pos h = unfold count_from in omega arith
  count_from-in_window b (now ∷ times) pos (h, hs) =
      let same = current_bucket-same b now pos h in
      elim (dec_lt b.count limit) [
        | yes free ↦ omega (
          arith,
          count_from-free (some b) b now times same free,
          count_from-in_window (record b { count = b.count + 1 }) times pos hs,
        )
        | no full ↦ omega (
          arith,
          count_from-full (some b) b now times same (omega arith),
          count_from-in_window b times pos hs,
        )
      ]

  -- A window that has begun at `from` or later lasts until the end of the stretch.
  count_from-le_rest :
      (from : ℕ) (b : BucketState) (times : List ℕ)
      → 0 < window
      → from ≤ b.started_at
      → All (λ t. (from ≤ t) × (t < from + window)) times
      → count_from limit window bucket (some b) times ≤ limit - b.count
  count_from-le_rest from b times pos begun h =
      omega (arith, count_from-in_window b times pos (inside times h))
    where
      inside :
          (ts : List ℕ)
          → All (λ t. (from ≤ t) × (t < from + window)) ts
          → All (λ t. t < b.started_at + window) ts
      inside [] k = tt
      inside (t ∷ ts) (k, ks) = (omega arith, inside ts ks)

  -- Within a stretch of one window's length at most twice the limit is let through.
  pub count_from-le :
      (from : ℕ) (b : BucketState) (times : List ℕ)
      → 0 < window
      → All (λ t. (from ≤ t) × (t < from + window)) times
      → count_from limit window bucket (some b) times ≤ (limit - b.count) + limit
  count_from-le from b [] pos h = unfold count_from in omega arith
  count_from-le from b (now ∷ times) pos (h, hs) = elim (current_bucket-cases b now) [
    | inl same ↦ elim (dec_lt b.count limit) [
      | yes free ↦ omega (
        arith,
        count_from-free (some b) b now times same free,
        count_from-le from (record b { count = b.count + 1 }) times pos hs,
      )
      | no full ↦ omega (
        arith,
        count_from-full (some b) b now times same (omega arith),
        count_from-le from b times pos hs,
      )
    ]
    | inr reset ↦ elim (dec_lt 0 limit) [
      | yes free ↦ omega (
        arith,
        count_from-free (some b) (record { started_at = now; count = 0 }) now times reset free,
        count_from-le_rest from (record { started_at = now; count = 1 }) times pos h.0 hs,
      )
      | no full ↦ omega (
        arith,
        count_from-full (some b) (record { started_at = now; count = 0 }) now times reset
            (omega arith),
        count_from-le_rest from (record { started_at = now; count = 0 }) times pos h.0 hs,
      )
    ]
  ]

  pub count_from-le_new :
      (from now : ℕ) (times : List ℕ)
      → 0 < window
      → (from ≤ now) × (now < from + window)
      → All (λ t. (from ≤ t) × (t < from + window)) times
      → count_from limit window bucket none (now ∷ times) ≤ limit
  count_from-le_new from now times pos h hs =
      let start : BucketState = record { started_at = now; count = 0 } in
      let begins : current_bucket window now none ≡ start = unfold current_bucket in refl in
      elim (dec_lt 0 limit) [
        | yes free ↦ omega (
          arith,
          count_from-free none start now times begins free,
          count_from-le_rest from (record start { count = 1 }) times pos h.0 hs,
        )
        | no full ↦ omega (
          arith,
          count_from-full none start now times begins (omega arith),
          count_from-le_rest from start times pos h.0 hs,
        )
      ]
