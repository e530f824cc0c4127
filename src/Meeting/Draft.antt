-- ===== src/Meeting/Draft.antt =====
-- src/domain/meeting.rs: what `create`, `update` and `cancel` of `MeetingService` prepare before they
-- call the store. Each new attendee and reminder comes with the id that `ids::new_uuid_v7()` gives it.
use opencord_server.Base.{List, ◌++◌, Option, none, some, Text, Uuid, text, Result, ok}
use opencord_server.Base.Fallible.{◌>>=◌, ◌>>◌}
use opencord_server.Meeting.{
  Meeting, MeetingBundle, MeetingPatch, NewMeetingAttendee, NewMeetingReminder, MeetingError,
  Crates,
}
use opencord_server.Meeting.Input.{
  normalize_title, normalize_description, normalize_timezone, normalize_attendee, parse_time,
  validate_schedule, normalize_reminder, collect,
}

-- `if let Some(value) = patch { field = normalize(value)?; }`
abbrev pub or_keep :
    {A : Type 0} → (Text → Result MeetingError A) → A → Option Text → Result MeetingError A
or_keep normalize old none = ok old
or_keep normalize old (some value) = normalize value

-- The time that a patch gives, or else the one that is stored.
abbrev pub or_stored : Text → Option Text → Text
or_stored old none = old
or_stored old (some value) = value

abbrev pub starts_message : Text
starts_message = text "meeting starts_at must be an RFC3339 timestamp"

abbrev pub ends_message : Text
ends_message = text "meeting ends_at must be an RFC3339 timestamp"

-- The arguments of `create` beside the id.
pub record NewMeeting : Type 0 where
  pub organization_id : Uuid
  pub space_id : Option Uuid
  pub channel_id : Option Uuid
  pub created_by_user_id : Uuid
  pub title : Text
  pub description : Option Text
  pub starts_at : Text
  pub ends_at : Text
  pub timezone : Option Text
  pub attendees : List (Uuid × NewMeetingAttendee)
  pub reminders : List (Uuid × NewMeetingReminder)

module _ (crates : Crates) where
  unfoldable pub new_bundle : Uuid → NewMeeting → Result MeetingError MeetingBundle
  new_bundle id new = do
    starts_at ← parse_time crates new.starts_at starts_message
    ends_at ← parse_time crates new.ends_at ends_message
    validate_schedule crates starts_at ends_at
    title ← normalize_title new.title
    description ← normalize_description new.description
    timezone ← normalize_timezone new.timezone
    let meeting : Meeting = record {
      id = id;
      organization_id = new.organization_id;
      space_id = new.space_id;
      channel_id = new.channel_id;
      created_by_user_id = new.created_by_user_id;
      title = title;
      description = description;
      status = text "scheduled";
      starts_at = crates.to_rfc3339 starts_at;
      ends_at = crates.to_rfc3339 ends_at;
      timezone = timezone;
      join_slug = text "mtg-" ++ crates.simple id;
      cancelled_at = none;
    }
    attendees ← collect (λ p. normalize_attendee id p.0 p.1) new.attendees
    reminders ← collect (λ p. normalize_reminder crates id starts_at p.0 p.1) new.reminders
    ok (record { meeting = meeting; attendees = attendees; reminders = reminders })

  unfoldable pub patched : Meeting → MeetingPatch → Result MeetingError Meeting
  patched m patch = do
    title ← or_keep normalize_title m.title patch.title
    description ←
        or_keep (λ value. normalize_description (some value)) m.description patch.description
    timezone ← or_keep (λ value. normalize_timezone (some value)) m.timezone patch.timezone
    starts_at ← parse_time crates (or_stored m.starts_at patch.starts_at) starts_message
    ends_at ← parse_time crates (or_stored m.ends_at patch.ends_at) ends_message
    validate_schedule crates starts_at ends_at
    ok (record m {
      title = title;
      description = description;
      timezone = timezone;
      starts_at = crates.to_rfc3339 starts_at;
      ends_at = crates.to_rfc3339 ends_at;
    })

  -- `now` is `Utc::now()`.
  unfoldable pub cancelled : crates.DateTime → Meeting → Meeting
  cancelled now m = record m {
    status = text "cancelled";
    cancelled_at = some (crates.to_rfc3339 now);
  }
