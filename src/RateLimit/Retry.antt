-- ===== src/RateLimit/Retry.antt =====
-- What a client learns from a decision: how many requests are left, and how long to wait.
use opencord_server.Base.{
  ℕ, ◌+◌, ◌-◌, ◌%◌, ◌≤◌, ◌<◌, max, min, true, false, List, Option, none, some, Text, length, All,
  text_eq, ◌≡◌, refl, arith, ◌≢◌, ap, ◌∙◌,
}
use opencord_server.Base.Map.{get, get-insert_self}
use opencord_server.RateLimit.{
  BucketState, FixedWindowRateLimiter, current_bucket, check_bucket, check, from_secs, as_secs,
}
use opencord_server.RateLimit.Counting.{allowed_count}
use opencord_server.RateLimit.Quota.{allowed_count-in_window}

-- `remaining` is exact, if the window is not zero: after a request that was let through, at a
-- time when its bucket's window began at `started_at`, the bucket lets exactly that many more requests through in
-- the same window.
pub remaining_exact :
    (bucket : Text) (l : FixedWindowRateLimiter) (now : ℕ) (times : List ℕ) (b : BucketState)
    → 0 < l.window
    → (check now bucket l).0.allowed ≡ true
    → get (check now bucket l).1.buckets bucket ≡ some b
    → All (λ t. t < b.started_at + l.window) times
    → allowed_count bucket (check now bucket l).1 times
      ≡ min (length times) (check now bucket l).0.remaining
unfolding check
remaining_exact bucket l now times b pos allowed found h =
    let cur = current_bucket l.window now (get l.buckets bucket) in
    let left = check_bucket l.limit l.window now bucket cur in
    let same : left.1 ≡ b = ground (arith, found, get-insert_self l.buckets bucket left.1) in
    allowed_count-in_window bucket (check now bucket l).1 b times pos found h
    ∙ ap (min (length times)) (ground (arith, same, allowed))

-- A refusal leaves the bucket alone, and announces the whole seconds left in the window.
refusal :
    (limit window now : ℕ) (bucket : Text) (b : BucketState)
    → (check_bucket limit window now bucket b).0.allowed ≡ false
    → (limit ≤ b.count)
      × ((check_bucket limit window now bucket b).1 ≡ b)
      × ((check_bucket limit window now bucket b).0.reset_after_seconds
          ≡ max (as_secs (window - (now - b.started_at))) 1)
unfolding check_bucket
refusal limit window now bucket b h = ground arith

allowed_of_lt :
    (limit window now : ℕ) (bucket : Text) (b : BucketState)
    → b.count < limit
    → (check_bucket limit window now bucket b).0.allowed ≡ true
unfolding check_bucket
allowed_of_lt limit window now bucket b h = ground arith

refused_of_le :
    (limit window now : ℕ) (bucket : Text) (b : BucketState)
    → limit ≤ b.count
    → (check_bucket limit window now bucket b).0.allowed ≡ false
unfolding check_bucket
refused_of_le limit window now bucket b h = ground arith

current_bucket-over :
    (window now : ℕ) (b : BucketState)
    → window ≤ now - b.started_at
    → current_bucket window now (some b) ≡ record { started_at = now; count = 0 }
unfolding current_bucket
current_bucket-over window now b h = ground arith

current_bucket-running :
    (window now : ℕ) (b : BucketState)
    → now - b.started_at < window
    → current_bucket window now (some b) ≡ b
unfolding current_bucket
current_bucket-running window now b h = ground arith

-- The window of the bucket that `check` works on has begun by now, if that of the stored one has.
current_bucket-started :
    (window now : ℕ) (o : Option BucketState)
    → ((b : BucketState) → o ≡ some b → b.started_at ≤ now)
    → (current_bucket window now o).started_at ≤ now
unfolding current_bucket
current_bucket-started window now none h = omega arith
current_bucket-started window now (some b) h = ground (arith, h b refl)

-- A request that was refused is let through again once the announced seconds and one more have
-- passed, if the limit is not zero and the bucket's window did not begin after the refusal.
pub retry_enough :
    (bucket : Text) (l : FixedWindowRateLimiter) (now later : ℕ)
    → 0 < l.limit
    → ((b : BucketState) → get l.buckets bucket ≡ some b → b.started_at ≤ now)
    → (check now bucket l).0.allowed ≡ false
    → now + from_secs ((check now bucket l).0.reset_after_seconds + 1) ≤ later
    → (check later bucket (check now bucket l).1).0.allowed ≡ true
unfolding check
retry_enough bucket l now later pos past refused wait =
    let cur = current_bucket l.window now (get l.buckets bucket) in
    let left = check_bucket l.limit l.window now bucket cur in
    let (full, same, reset) = refusal l.limit l.window now bucket cur refused in
    let begun : cur.started_at ≤ now =
      current_bucket-started l.window now (get l.buckets bucket) past in
    let over : l.window ≤ later - cur.started_at = omega (arith, reset) in
    rw (get-insert_self l.buckets bucket left.1, same, current_bucket-over l.window later cur over)
      (allowed_of_lt l.limit l.window later bucket (record { started_at = later; count = 0 }) pos)

-- The announced seconds alone are not enough where the time left in the window is at least a second
-- and no whole number of seconds: `as_secs` drops the fraction, so a client that comes back exactly
-- then is refused once more.
pub retry_too_early :
    (bucket : Text) (l : FixedWindowRateLimiter) (now : ℕ) (b : BucketState)
    → get l.buckets bucket ≡ some b
    → b.started_at ≤ now
    → l.limit ≤ b.count
    → from_secs 1 ≤ b.started_at + l.window - now
    → (b.started_at + l.window - now) % from_secs 1 ≢ 0
    → let first = check now bucket l in
      (first.0.allowed ≡ false)
      × ((check (now + from_secs first.0.reset_after_seconds) bucket first.1).0.allowed ≡ false)
unfolding check
retry_too_early bucket l now b found begun full long odd =
    let here = refused_of_le l.limit l.window now bucket b full in
    let (_, same, reset) = refusal l.limit l.window now bucket b here in
    let cur = current_bucket-running l.window now b (omega arith) in
    let left = check_bucket l.limit l.window now bucket b in
    let soon = now + from_secs left.0.reset_after_seconds in
    let still = current_bucket-running l.window soon b (omega (arith, reset)) in
    rw (found, cur)
      (
        here,
        rw (get-insert_self l.buckets bucket left.1, same, still)
            (refused_of_le l.limit l.window soon bucket b full),
      )
