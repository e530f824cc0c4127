-- ===== src/Meeting/Input.antt =====
-- src/domain/meeting.rs: the checks on what a caller sends.
use opencord_server.Base.{
  ◌&&◌, not, nat_eqb, leb, ltb, if◌then◌else◌, List, [], ◌∷◌, any, Option, none, some, Text, Uuid,
  text, len, is_empty, trim, collapse, to_ascii_lowercase, text_eqb, Result, ok, err,
}
use opencord_server.Base.Int.{pos, ltb_ℤ}
use opencord_server.Base.Map.{is_some}
use opencord_server.Base.Fallible.{◌>>=◌}
use opencord_server.Meeting.{
  MeetingAttendee, MeetingReminder, NewMeetingAttendee, NewMeetingReminder, MeetingError,
  invalid_input, Crates,
}

unfoldable pub normalize_title : Text → Result MeetingError Text
normalize_title raw =
    let title = collapse raw in
    if leb 1 (len title) && leb (len title) 200
    then ok title
    else err (invalid_input (text "meeting title must be between 1 and 200 characters"))

unfoldable pub normalize_description : Option Text → Result MeetingError (Option Text)
normalize_description none = ok none
normalize_description (some raw) =
    let description = collapse raw in
    if ltb 4000 (len description)
    then err (invalid_input (text "meeting description must be 4000 characters or fewer"))
    else if is_empty description
    then ok none
    else ok (some description)

-- `unwrap_or_else`
abbrev unwrap_or : Text → Option Text → Text
unwrap_or default none = default
unwrap_or default (some value) = value

unfoldable pub normalize_timezone : Option Text → Result MeetingError Text
normalize_timezone raw =
    let timezone = trim (unwrap_or (text "UTC") raw) in
    if leb 1 (len timezone) && leb (len timezone) 64
    then ok timezone
    else err (invalid_input (text "meeting timezone must be between 1 and 64 characters"))

unfoldable pub normalize_attendee_role : Option Text → Result MeetingError Text
normalize_attendee_role raw =
    let role = to_ascii_lowercase (trim (unwrap_or (text "required") raw)) in
    if text_eqb role (text "host")
    then ok (text "host")
    else if text_eqb role (text "required")
    then ok (text "required")
    else if text_eqb role (text "optional")
    then ok (text "optional")
    else err (invalid_input (text "meeting attendee role must be host, required, or optional"))

unfoldable pub normalize_reminder_channel : Text → Result MeetingError Text
normalize_reminder_channel raw =
    let channel = to_ascii_lowercase (trim raw) in
    if text_eqb channel (text "in_app")
    then ok (text "in_app")
    else if text_eqb channel (text "push")
    then ok (text "push")
    else if text_eqb channel (text "email")
    then ok (text "email")
    else err (invalid_input (text "meeting reminder channel must be in_app, push, or email"))

unfoldable pub normalize_email : Text → Result MeetingError Text
normalize_email raw =
    let email = to_ascii_lowercase (trim raw) in
    if any (nat_eqb b'@') email && leb (len email) 254
    then ok email
    else err (invalid_input (text "meeting email must be a valid email address"))

-- `map(normalize_email).transpose()`
unfoldable pub normalize_emails : Option Text → Result MeetingError (Option Text)
unfolding normalize_email
normalize_emails none = ok none
normalize_emails (some raw) = do email ← normalize_email raw; ok (some email)

-- `id` is the fresh `ids::new_uuid_v7()`.
unfoldable pub normalize_attendee :
    Uuid → Uuid → NewMeetingAttendee → Result MeetingError MeetingAttendee
unfolding normalize_emails normalize_description normalize_attendee_role
normalize_attendee meeting_id id attendee = do
  email ← normalize_emails attendee.email
  if not (is_some attendee.user_id) && not (is_some email)
      then err (invalid_input (text "meeting attendee requires user_id or email"))
      else do
        display_name ← normalize_description attendee.display_name
        role ← normalize_attendee_role attendee.role
        ok (record {
          id = id;
          meeting_id = meeting_id;
          user_id = attendee.user_id;
          email = email;
          display_name = display_name;
          role = role;
          response_status = text "needs_action";
        })

module _ (crates : Crates) where
  open crates use {DateTime}

  unfoldable pub parse_time : Text → Text → Result MeetingError DateTime
  parse_time value message = elim (crates.parse_from_rfc3339 (trim value)) [
    | none ↦ err (invalid_input message)
    | some time ↦ ok time
  ]

  unfoldable pub validate_schedule : DateTime → DateTime → Result MeetingError (Unit {0})
  validate_schedule starts_at ends_at =
      if crates.is_after ends_at starts_at
      then ok tt
      else err (invalid_input (text "meeting end time must be after start time"))

  unfoldable pub normalize_reminder :
      Uuid → DateTime → Uuid → NewMeetingReminder → Result MeetingError MeetingReminder
  unfolding normalize_emails normalize_reminder_channel
  normalize_reminder meeting_id starts_at id reminder = do
    recipient_email ← normalize_emails reminder.recipient_email
    if not (is_some reminder.recipient_user_id) && not (is_some recipient_email)
        then err
            (invalid_input (text "meeting reminder requires recipient_user_id or recipient_email"))
        else if ltb_ℤ reminder.offset_minutes (pos 0)
        then err (
            invalid_input
              (text "meeting reminder offset_minutes must be greater than or equal to 0"))
        else do
          channel ← normalize_reminder_channel reminder.channel
          ok (record {
            id = id;
            meeting_id = meeting_id;
            recipient_user_id = reminder.recipient_user_id;
            recipient_email = recipient_email;
            channel = channel;
            offset_minutes = reminder.offset_minutes;
            scheduled_for =
                crates.to_rfc3339 (crates.minus_minutes starts_at reminder.offset_minutes);
            status = text "pending";
          })

-- `map(f).collect::<Result<Vec<_>, _>>()`: the first error ends it.
unfoldable pub collect :
    {A B : Type 0} → (A → Result MeetingError B) → List A → Result MeetingError (List B)
collect f [] = ok []
collect f (x ∷ xs) = do y ← f x; ys ← collect f xs; ok (y ∷ ys)
