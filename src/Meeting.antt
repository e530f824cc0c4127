-- ===== src/Meeting.antt =====
-- src/domain/meeting.rs: meetings, attendees and reminders.
-- Children: the checks on input, the store and its in-memory implementation, the service, the
-- reminder worker of src/domain/reminder.rs, and what holds of them.
pub mod Input
pub mod Store
pub mod Memory
pub mod Draft
pub mod Service
pub mod Worker
pub mod Pending
pub mod Due
pub mod Order
pub mod Runs
pub mod Schedule
mod Tests
use opencord_server.Base.{ℕ, Bool, List, Option, Text, Uuid, text}
use opencord_server.Base.Int.{ℤ}

pub record Meeting : Type 0 where
  pub id : Uuid
  pub organization_id : Uuid
  pub space_id : Option Uuid
  pub channel_id : Option Uuid
  pub created_by_user_id : Uuid
  pub title : Text
  pub description : Option Text
  pub status : Text
  pub starts_at : Text
  pub ends_at : Text
  pub timezone : Text
  pub join_slug : Text
  pub cancelled_at : Option Text

pub record MeetingAttendee : Type 0 where
  pub id : Uuid
  pub meeting_id : Uuid
  pub user_id : Option Uuid
  pub email : Option Text
  pub display_name : Option Text
  pub role : Text
  pub response_status : Text

pub record MeetingReminder : Type 0 where
  pub id : Uuid
  pub meeting_id : Uuid
  pub recipient_user_id : Option Uuid
  pub recipient_email : Option Text
  pub channel : Text
  pub offset_minutes : ℤ
  pub scheduled_for : Text
  pub status : Text

pub record MeetingBundle : Type 0 where
  pub meeting : Meeting
  pub attendees : List MeetingAttendee
  pub reminders : List MeetingReminder

pub record MeetingReminderJob : Type 0 where
  pub meeting : Meeting
  pub reminder : MeetingReminder

pub record MeetingPatch : Type 0 where
  pub title : Option Text
  pub description : Option Text
  pub starts_at : Option Text
  pub ends_at : Option Text
  pub timezone : Option Text

pub record NewMeetingAttendee : Type 0 where
  pub user_id : Option Uuid
  pub email : Option Text
  pub display_name : Option Text
  pub role : Option Text

pub record NewMeetingReminder : Type 0 where
  pub recipient_user_id : Option Uuid
  pub recipient_email : Option Text
  pub channel : Text
  pub offset_minutes : ℤ

pub data MeetingError : Type 0 where
  invalid_input : Text → MeetingError
  not_found store_unavailable : MeetingError

unfoldable pub status_code : MeetingError → ℕ
status_code (invalid_input _) = 400
status_code not_found = 404
status_code store_unavailable = 500

unfoldable pub error_code : MeetingError → Text
error_code (invalid_input _) = text "invalid_request"
error_code not_found = text "meeting_not_found"
error_code store_unavailable = text "store_unavailable"

-- What the code takes from the crates chrono and uuid: an instant in UTC, reading it from RFC 3339
-- and printing it to the second, whether the first instant is after the second, an instant some
-- minutes earlier, and the plain hexadecimal form of a UUID.
pub record Crates : Type 1 where
  pub DateTime : Type 0
  pub parse_from_rfc3339 : Text → Option DateTime
  pub to_rfc3339 : DateTime → Text
  pub is_after : DateTime → DateTime → Bool
  pub minus_minutes : DateTime → ℤ → DateTime
  pub simple : Uuid → Text
