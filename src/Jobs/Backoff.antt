-- ===== src/Jobs/Backoff.antt =====
-- The backoff of a retry.
use opencord_server.Base.{
  ℕ, zero, suc, ◌+◌, ◌-◌, ◌*◌, ◌^◌, ◌≤◌, ◌<◌, min, true, false, leb, ◌≡◌, arith, ap,
}
use native.Mathlib.Nat.{pow-suc}
use opencord_server.Jobs.{
  RetryPolicy, RetryDecision, retry, dead_letter, u64_max, decide_retry, saturating_mul,
  saturating_pow_two,
}

saturating_lem : (a k : ℕ) → saturating_mul a (saturating_pow_two k) ≡ min (a * 2 ^ k) u64_max
unfolding saturating_mul saturating_pow_two
saturating_lem zero k = omega arith
saturating_lem (suc a) k = grind arith

-- The backoff before attempt `max_attempts` is the initial one doubled for every attempt after the
-- first, or `u64::MAX` where that is less: saturating twice is saturating once. From
-- `max_attempts` on the job goes to the dead letters.
pub decide_retry_lem :
    (policy : RetryPolicy) (attempt : ℕ)
    → (attempt < policy.max_attempts
        → decide_retry policy attempt
          ≡ retry (min (policy.initial_backoff_ms * 2 ^ (attempt - 1)) u64_max))
      × (policy.max_attempts ≤ attempt → decide_retry policy attempt ≡ dead_letter)
unfolding decide_retry
decide_retry_lem policy attempt = (
  λ h.
      let early : leb policy.max_attempts attempt ≡ false = ground (arith, h) in
      rw early (ap retry (saturating_lem policy.initial_backoff_ms (attempt - 1))),
  λ h. let late : leb policy.max_attempts attempt ≡ true = ground (arith, h) in rw late,
)

abbrev pub backoff : RetryDecision → ℕ
backoff (retry b) = b
backoff dead_letter = 0

-- A later attempt never waits less than an earlier one, while the job is retried.
pub backoff_mono :
    (policy : RetryPolicy) (attempt : ℕ)
    → attempt + 1 < policy.max_attempts
    → backoff (decide_retry policy attempt) ≤ backoff (decide_retry policy (attempt + 1))
backoff_mono policy zero h =
    let now = (decide_retry_lem policy 0).0 (omega arith) in
    let later = (decide_retry_lem policy 1).0 (omega arith) in rw (now, later) (omega arith)
backoff_mono policy (suc n) h =
    let now = (decide_retry_lem policy (suc n)).0 (omega arith) in
    let later = (decide_retry_lem policy (suc n + 1)).0 h in
    let first : suc n - 1 ≡ n = omega arith in
    let second : suc n + 1 - 1 ≡ suc n = omega arith in
    rw (now, later, first, second)
      (omega (arith, ap (λ (t : ℕ). policy.initial_backoff_ms * t) (pow-suc 2 n)))
