-- ===== src/RateLimit.antt =====
-- src/domain/rate_limit.rs: the fixed-window limiter. Times and durations are in nanoseconds on a
-- clock that does not run backwards; `check` takes the time that `Instant::now` gives.
pub mod Counting
pub mod Quota
pub mod Retry
pub mod Headers
mod Tests
use opencord_server.Base.{
  ℕ, ◌+◌, ◌-◌, ◌*◌, ◌/◌, max, Bool, true, false, leb, if◌then◌else◌, List, [], Option, none, some,
  Text, length, text_eq, trim, to_ascii_lowercase, text, ◌++◌,
}
use opencord_server.Base.Map.{HashMap, get, insert}

-- `Duration::from_secs`
abbrev pub from_secs : ℕ → ℕ
from_secs n = n * 1000000000

-- `Duration::as_secs`
abbrev pub as_secs : ℕ → ℕ
as_secs d = d / 1000000000

pub record RateLimitDecision : Type 0 where
  pub bucket : Text
  pub allowed : Bool
  pub limit : ℕ
  pub remaining : ℕ
  pub reset_after_seconds : ℕ

pub record BucketState : Type 0 where
  pub started_at : ℕ
  pub count : ℕ

pub record FixedWindowRateLimiter : Type 0 where
  pub limit : ℕ
  pub window : ℕ
  pub buckets : HashMap Text BucketState

-- `FixedWindowRateLimiter::new`
abbrev pub new_limiter : ℕ → ℕ → FixedWindowRateLimiter
new_limiter limit window = record { limit = limit; window = window; buckets = [] }

-- The configured limiters: each limit, with its window in seconds.
abbrev pub auth_register : FixedWindowRateLimiter
auth_register = new_limiter 5 (from_secs 60)

abbrev pub auth_login : FixedWindowRateLimiter
auth_login = new_limiter 5 (from_secs 60)

abbrev pub message_create : FixedWindowRateLimiter
message_create = new_limiter 5 (from_secs 60)

abbrev pub attachment_presign : FixedWindowRateLimiter
attachment_presign = new_limiter 5 (from_secs 60)

abbrev pub attachment_upload : FixedWindowRateLimiter
attachment_upload = new_limiter 10 (from_secs 60)

abbrev pub compat_rest_bot : FixedWindowRateLimiter
compat_rest_bot = new_limiter 10 (from_secs 60)

abbrev pub compat_gateway_identify : FixedWindowRateLimiter
compat_gateway_identify = new_limiter 1 (from_secs 5)

abbrev pub public_webhook_execution : FixedWindowRateLimiter
public_webhook_execution = new_limiter 5 (from_secs 60)

-- `entry(bucket).or_insert(…)`, then the reset of a window that has run out.
-- `duration_since` is 0 where the other instant is later.
unfoldable pub current_bucket : ℕ → ℕ → Option BucketState → BucketState
current_bucket window now none = record { started_at = now; count = 0 }
current_bucket window now (some b) =
    if leb window (now - b.started_at) then record { started_at = now; count = 0 } else b

-- What `check` decides on a bucket, and the bucket that it leaves behind.
unfoldable pub check_bucket : ℕ → ℕ → ℕ → Text → BucketState → RateLimitDecision × BucketState
check_bucket limit window now bucket b =
    let reset = max (as_secs (window - (now - b.started_at))) 1 in
    if leb limit b.count
    then (
      record {
        bucket = bucket;
        allowed = false;
        limit = limit;
        remaining = 0;
        reset_after_seconds = reset;
      },
      b,
    )
    else (
      record {
        bucket = bucket;
        allowed = true;
        limit = limit;
        remaining = limit - (b.count + 1);
        reset_after_seconds = reset;
      },
      record b { count = b.count + 1 },
    )

unfoldable pub check :
    ℕ → Text → FixedWindowRateLimiter → RateLimitDecision × FixedWindowRateLimiter
unfolding current_bucket check_bucket
check now bucket l =
    let b = current_bucket l.window now (get l.buckets bucket) in
    let (decision, b') = check_bucket l.limit l.window now bucket b in
    (decision, record l { buckets = insert l.buckets bucket b' })

-- `clear`: how many buckets were dropped, and the limiter without them.
unfoldable pub clear : FixedWindowRateLimiter → ℕ × FixedWindowRateLimiter
clear l = (length l.buckets, record l { buckets = [] })

unfoldable pub normalized_email_key : Text → Text
normalized_email_key email = to_ascii_lowercase (trim email)

unfoldable pub auth_register_bucket : Text → Text
unfolding normalized_email_key
auth_register_bucket email = text "auth:register:" ++ normalized_email_key email

unfoldable pub auth_login_bucket : Text → Text
unfolding normalized_email_key
auth_login_bucket email = text "auth:login:" ++ normalized_email_key email
