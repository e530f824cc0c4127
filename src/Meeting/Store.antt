-- ===== src/Meeting/Store.antt =====
-- src/domain/meeting.rs: the trait `MeetingStore`, as operations on a state of its own.
use opencord_server.Base.{ℕ, List, Option, Text, Uuid}
use opencord_server.Base.Action.{Action}
use opencord_server.Meeting.{Meeting, MeetingBundle, MeetingReminderJob, MeetingError}

pub record MeetingStore : Type 1 where
  pub State : Type 0
  pub create_meeting : MeetingBundle → Action State MeetingError (Unit {0})
  pub list_for_organization : Uuid → Action State MeetingError (List MeetingBundle)
  pub get_meeting : Uuid → Action State MeetingError (Option MeetingBundle)
  pub get_meeting_by_join_slug : Text → Action State MeetingError (Option MeetingBundle)
  pub update_meeting : Meeting → Action State MeetingError MeetingBundle
  pub list_due_reminders : Text → ℕ → Action State MeetingError (List MeetingReminderJob)
  pub mark_reminder_sent : Uuid → Text → Action State MeetingError (Unit {0})
  pub mark_reminder_failed : Uuid → Text → Text → Action State MeetingError (Unit {0})
