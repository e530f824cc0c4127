-- ===== src/Base/Time.antt =====
-- `chrono` as a parameter: the times that it reads from RFC 3339 and prints with milliseconds in UTC.
use mathlib.Core.Bool.{Bool}
use mathlib.Core.Option.{Option, some}
use mathlib.Core.Path.{◌≡◌}
use opencord_server.Base.Strings.{Text, trim}
use opencord_server.Base.Int.{ℤ}

pub record Chrono : Type 1 where
  pub DateTime : Type 0
  -- `DateTime::parse_from_rfc3339`, then `with_timezone(&Utc)`.
  pub parse_from_rfc3339 : Text → Option DateTime
  -- `to_rfc3339_opts(SecondsFormat::Millis, true)`
  pub to_rfc3339 : DateTime → Text
  -- `left > right`
  pub is_after : DateTime → DateTime → Bool
  -- `time - Duration::days(days)`
  pub minus_days : DateTime → ℤ → DateTime

-- The text that a time prints as is read back, as a time that prints alike. chrono does so for the
-- years 0 to 9999.
pub record ReadsBack (chrono : Chrono) (time : chrono.DateTime) : Type 0 where
  pub again : chrono.DateTime
  pub reads : chrono.parse_from_rfc3339 (trim (chrono.to_rfc3339 time)) ≡ some again
  pub prints : chrono.to_rfc3339 again ≡ chrono.to_rfc3339 time
