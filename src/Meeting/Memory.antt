-- ===== src/Meeting/Memory.antt =====
-- src/repositories/meeting_memory.rs: the in-memory meeting store.
use opencord_server.Base.{
  ℕ, zero, suc, ◌&&◌, ◌||◌, Bool, nat_eqb, leb, if◌then◌else◌, List, [], ◌∷◌, ◌++◌, map, filter,
  filter_map, find, take, Option, none, some, Text, Uuid, text, text_eqb, text_leb, text_ltb,
  nat_eq, ok, err, sort_by,
}
use opencord_server.Base.Action.{Action, Mutex, locked}
use opencord_server.Base.Map.{HashMap, get, insert, contains_key, values}
use opencord_server.Meeting.{
  Meeting, MeetingAttendee, MeetingReminder, MeetingBundle, MeetingReminderJob, MeetingError,
  not_found, store_unavailable,
}
use opencord_server.Meeting.Store.{MeetingStore}

pub record MemoryMeetingState : Type 0 where
  pub meetings_by_id : HashMap Uuid Meeting
  pub attendees_by_meeting_id : HashMap Uuid (List MeetingAttendee)
  pub reminders_by_meeting_id : HashMap Uuid (List MeetingReminder)

abbrev pub State : Type 0
State = Mutex MemoryMeetingState

-- `unwrap_or_default` of a list.
abbrev pub or_empty : {A : Type 0} → Option (List A) → List A
or_empty none = []
or_empty (some xs) = xs

unfoldable pub bundle_for_meeting : MemoryMeetingState → Meeting → MeetingBundle
bundle_for_meeting s meeting = record {
  attendees = or_empty (get s.attendees_by_meeting_id meeting.id);
  reminders = or_empty (get s.reminders_by_meeting_id meeting.id);
  meeting = meeting;
}

unfoldable pub create_meeting_body : MeetingBundle → MemoryMeetingState → MemoryMeetingState
create_meeting_body bundle s = record {
  attendees_by_meeting_id = insert s.attendees_by_meeting_id bundle.meeting.id bundle.attendees;
  reminders_by_meeting_id = insert s.reminders_by_meeting_id bundle.meeting.id bundle.reminders;
  meetings_by_id = insert s.meetings_by_id bundle.meeting.id bundle.meeting;
}

unfoldable pub create_meeting : MeetingBundle → Action State MeetingError (Unit {0})
unfolding create_meeting_body
create_meeting bundle = locked store_unavailable (λ s. (ok tt, create_meeting_body bundle s))

-- By start, then by id.
abbrev by_start : MeetingBundle → MeetingBundle → Bool
by_start a b =
    text_ltb a.meeting.starts_at b.meeting.starts_at
    || text_eqb a.meeting.starts_at b.meeting.starts_at && leb a.meeting.id b.meeting.id

unfoldable pub list_for_organization : Uuid → Action State MeetingError (List MeetingBundle)
unfolding bundle_for_meeting
list_for_organization organization_id = locked store_unavailable (λ s. (
  ok (
      sort_by by_start (
        map (bundle_for_meeting s)
          (filter (λ m. nat_eqb m.organization_id organization_id) (values s.meetings_by_id)))),
  s,
))

abbrev bundle_of : MemoryMeetingState → Option Meeting → Option MeetingBundle
bundle_of s none = none
bundle_of s (some meeting) = some (bundle_for_meeting s meeting)

unfoldable pub get_meeting_body : Uuid → MemoryMeetingState → Option MeetingBundle
unfolding bundle_for_meeting
get_meeting_body meeting_id s = bundle_of s (get s.meetings_by_id meeting_id)

unfoldable pub get_meeting : Uuid → Action State MeetingError (Option MeetingBundle)
unfolding get_meeting_body
get_meeting meeting_id = locked store_unavailable (λ s. (ok (get_meeting_body meeting_id s), s))

unfoldable pub get_meeting_by_join_slug : Text → Action State MeetingError (Option MeetingBundle)
unfolding bundle_for_meeting
get_meeting_by_join_slug join_slug = locked store_unavailable (λ s.
    (ok (bundle_of s (find (λ m. text_eqb m.join_slug join_slug) (values s.meetings_by_id))), s))

unfoldable pub update_meeting_body : Meeting → Action MemoryMeetingState MeetingError MeetingBundle
unfolding bundle_for_meeting
update_meeting_body meeting s =
    if contains_key s.meetings_by_id meeting.id
    then (let s' = record s { meetings_by_id = insert s.meetings_by_id meeting.id meeting } in
        (ok (bundle_for_meeting s' meeting), s'))
    else (err not_found, s)

unfoldable pub update_meeting : Meeting → Action State MeetingError MeetingBundle
unfolding update_meeting_body
update_meeting meeting = locked store_unavailable (update_meeting_body meeting)

-- `values().flatten()`
unfoldable pub flatten : {A : Type 0} → List (List A) → List A
flatten [] = []
flatten (xs ∷ xss) = xs ++ flatten xss

abbrev pub is_pending : MeetingReminder → Bool
is_pending reminder = text_eqb reminder.status (text "pending")

abbrev pub job_of : MemoryMeetingState → MeetingReminder → Option MeetingReminderJob
job_of s reminder = elim (get s.meetings_by_id reminder.meeting_id) [
  | none ↦ none
  | some meeting ↦
      if text_eqb meeting.status (text "scheduled")
      then some (record { meeting = meeting; reminder = reminder })
      else none
]

-- By time, then by id.
abbrev pub by_time : MeetingReminderJob → MeetingReminderJob → Bool
by_time a b =
    text_ltb a.reminder.scheduled_for b.reminder.scheduled_for
    || text_eqb a.reminder.scheduled_for b.reminder.scheduled_for && leb a.reminder.id b.reminder.id

unfoldable pub due_jobs : Text → ℕ → MemoryMeetingState → List MeetingReminderJob
unfolding flatten
due_jobs due_at limit s = take limit (
    sort_by by_time (
      filter_map (job_of s) (
        filter (λ r. is_pending r && text_leb r.scheduled_for due_at)
          (flatten (values s.reminders_by_meeting_id)))))

unfoldable pub list_due_reminders : Text → ℕ → Action State MeetingError (List MeetingReminderJob)
unfolding due_jobs
list_due_reminders due_at zero m = (ok [], m)
list_due_reminders due_at (suc n) m =
    locked store_unavailable (λ s. (ok (due_jobs due_at (suc n) s), s)) m

-- `find(…)` in one list, and the list after the write.
unfoldable pub mark_in : Uuid → Text → List MeetingReminder → Option (List MeetingReminder)
mark_in reminder_id status [] = none
mark_in reminder_id status (r ∷ rs) =
    let rest = mark_in reminder_id status rs in
    if nat_eqb r.id reminder_id && is_pending r
    then some (record r { status = status } ∷ rs)
    else elim rest [ none ↦ none | some rs' ↦ some (r ∷ rs') ]

-- The loop over `values_mut()`.
unfoldable pub mark_in_values :
    Uuid → Text → HashMap Uuid (List MeetingReminder) → Option (HashMap Uuid (List MeetingReminder))
unfolding mark_in
mark_in_values reminder_id status [] = none
mark_in_values reminder_id status ((k, rs) ∷ m) =
    let rest = mark_in_values reminder_id status m in
    elim (mark_in reminder_id status rs) [
      | some rs' ↦ some ((k, rs') ∷ m)
      | none ↦ elim rest [ none ↦ none | some m' ↦ some ((k, rs) ∷ m') ]
    ]

unfoldable pub update_reminder_status_body :
    Uuid → Text → Action MemoryMeetingState MeetingError (Unit {0})
unfolding mark_in_values
update_reminder_status_body reminder_id status s =
    elim (mark_in_values reminder_id status s.reminders_by_meeting_id) [
      | none ↦ (err not_found, s)
      | some m ↦ (ok tt, record s { reminders_by_meeting_id = m })
    ]

unfoldable pub update_reminder_status : Uuid → Text → Action State MeetingError (Unit {0})
unfolding update_reminder_status_body
update_reminder_status reminder_id status =
    locked store_unavailable (update_reminder_status_body reminder_id status)

unfoldable pub mark_reminder_sent : Uuid → Text → Action State MeetingError (Unit {0})
unfolding update_reminder_status
mark_reminder_sent reminder_id sent_at = update_reminder_status reminder_id (text "sent")

unfoldable pub mark_reminder_failed : Uuid → Text → Text → Action State MeetingError (Unit {0})
unfolding update_reminder_status
mark_reminder_failed reminder_id failed_at failure_reason =
    update_reminder_status reminder_id (text "failed")

abbrev pub memory_store : MeetingStore
memory_store = record {
  State = State;
  create_meeting = create_meeting;
  list_for_organization = list_for_organization;
  get_meeting = get_meeting;
  get_meeting_by_join_slug = get_meeting_by_join_slug;
  update_meeting = update_meeting;
  list_due_reminders = list_due_reminders;
  mark_reminder_sent = mark_reminder_sent;
  mark_reminder_failed = mark_reminder_failed;
}
