-- ===== src/Meeting/Schedule.antt =====
-- The times of meetings and of their reminders: what `create` and `update` of the service make sure
-- of, and what happens to the reminders of a meeting that is moved or cancelled.
use opencord_server.Base.{
  ℕ, ◌&&◌, ◌||◌, true, false, nat_eqb, List, [], ◌∷◌, filter, filter_map, All, All-take,
  All-sort_by, sort_by, some, Text, Uuid, text, text_eqb, text_leb, nat_eq, beq_refl, ok, ◌≡◌, refl,
  arith, Bool-cases, inl, inr,
}
use mathlib.Core.Path.{subst}
use opencord_server.Base.Fallible.{Result-cases, >>=-Succeeds, >>-Succeeds, ok-injective}
use opencord_server.Base.Int.{pos, ltb_ℤ}
use opencord_server.Base.Map.{get, insert, contains_key, is_some, get-insert, values}
use opencord_server.Base.Action.{healthy}
use opencord_server.Meeting.{
  Meeting, MeetingReminder, MeetingBundle, MeetingReminderJob, MeetingPatch, NewMeetingReminder,
  Crates,
}
use opencord_server.Meeting.Input.{
  parse_time, validate_schedule, normalize_reminder, normalize_emails, normalize_reminder_channel,
  collect, normalize_title, normalize_description, normalize_timezone, normalize_attendee,
}
use opencord_server.Meeting.Draft.{
  NewMeeting, new_bundle, patched, cancelled, or_keep, or_stored, starts_message, ends_message,
}
use opencord_server.Meeting.Memory
use opencord_server.Meeting.Memory.{
  MemoryMeetingState, memory_store, update_meeting_body, bundle_for_meeting, job_of, is_pending,
  due_jobs, or_empty, by_time, flatten,
}
use opencord_server.Meeting.Service

module _ (crates : Crates) where
  open crates use {DateTime}

  -- A meeting that lasts from one instant to a later one.
  pub record IsScheduled (m : Meeting) : Type 0 where
    pub starts : DateTime
    pub ends : DateTime
    pub later : crates.is_after ends starts ≡ true
    pub starts_printed : m.starts_at ≡ crates.to_rfc3339 starts
    pub ends_printed : m.ends_at ≡ crates.to_rfc3339 ends

  -- A reminder of a meeting that starts at an instant: it is pending, it has someone to reach, and its
  -- time is the start less its offset, which is not negative.
  pub record IsReminderOf (id : Uuid) (starts : DateTime) (r : MeetingReminder) : Type 0 where
    pub of_meeting : r.meeting_id ≡ id
    pub is_new : r.status ≡ text "pending"
    pub reaches : (is_some r.recipient_user_id || is_some r.recipient_email) ≡ true
    pub before_start : ltb_ℤ r.offset_minutes (pos 0) ≡ false
    pub on_time : r.scheduled_for ≡ crates.to_rfc3339 (crates.minus_minutes starts r.offset_minutes)

  validate_schedule-later :
      (starts ends : DateTime)
      → validate_schedule crates starts ends ≡ ok tt
      → crates.is_after ends starts ≡ true
  unfolding validate_schedule
  validate_schedule-later starts ends h = elim (Bool-cases (crates.is_after ends starts)) [
    | inl e ↦ e
    | inr e ↦ cc (rw e at h)
  ]

  normalize_reminder-IsReminderOf :
      (meeting_id : Uuid) (starts : DateTime) (id : Uuid) (new : NewMeetingReminder)
      (r : MeetingReminder)
      → normalize_reminder crates meeting_id starts id new ≡ ok r
      → IsReminderOf meeting_id starts r
  unfolding normalize_reminder
  normalize_reminder-IsReminderOf meeting_id starts id new r h =
      elim (Result-cases (normalize_emails new.recipient_email)) [
        | inl (e, bad) ↦ cc (rw bad at h)
        | inr (email, good) ↦ elim (Result-cases (normalize_reminder_channel new.channel)) [
          | inl (e, bad) ↦ (let h' = rw (good, bad) at h in ground (arith, h'))
          | inr (channel, good') ↦ (let h' = rw (good, good') at h in ground (arith, h'))
        ]
      ]

  collect-reminders :
      (meeting_id : Uuid) (starts : DateTime) (news : List (Uuid × NewMeetingReminder))
      (rs : List MeetingReminder)
      → collect (λ p. normalize_reminder crates meeting_id starts p.0 p.1) news ≡ ok rs
      → All (IsReminderOf meeting_id starts) rs
  unfolding collect
  collect-reminders meeting_id starts [] rs h = ground (arith, h)
  collect-reminders meeting_id starts ((id, new) ∷ news) rs h =
      let first = >>=-Succeeds (normalize_reminder crates meeting_id starts id new) _ h in
      let later =
        >>=-Succeeds (collect (λ p. normalize_reminder crates meeting_id starts p.0 p.1) news) _
          first.then_rest in
      ground (
        arith,
        later.then_rest,
        normalize_reminder-IsReminderOf meeting_id starts id new first.value first.first,
        collect-reminders meeting_id starts news later.value later.first,
      )

  -- A meeting that `create` accepts ends after it starts, and each of its reminders is a pending one
  -- of that meeting, reaches a user or an address, and is due at the start less its offset, which is
  -- not negative.
  pub new_bundle-IsScheduled :
      (id : Uuid) (new : NewMeeting) {b : MeetingBundle}
      → new_bundle crates id new ≡ ok b
      → (scheduled : IsScheduled b.meeting) × All
          (IsReminderOf b.meeting.id scheduled.starts)
          b.reminders
  unfolding new_bundle
  new_bundle-IsScheduled id new {b} h =
      let s1 = >>=-Succeeds (parse_time crates new.starts_at starts_message) _ h in
      let s2 = >>=-Succeeds (parse_time crates new.ends_at ends_message) _ s1.then_rest in
      let (valid, s3) = >>-Succeeds (validate_schedule crates s1.value s2.value) _ s2.then_rest in
      let s4 = >>=-Succeeds (normalize_title new.title) _ s3 in
      let s5 = >>=-Succeeds (normalize_description new.description) _ s4.then_rest in
      let s6 = >>=-Succeeds (normalize_timezone new.timezone) _ s5.then_rest in
      let s7 =
        >>=-Succeeds (collect (λ p. normalize_attendee id p.0 p.1) new.attendees) _ s6.then_rest in
      let s8 =
        >>=-Succeeds (collect (λ p. normalize_reminder crates id s1.value p.0 p.1) new.reminders) _
          s7.then_rest in
      subst
        (λ (b : MeetingBundle).
          (scheduled : IsScheduled b.meeting) × All (IsReminderOf b.meeting.id scheduled.starts)
            b.reminders)
        (ok-injective s8.then_rest)
        (
          record {
            starts = s1.value;
            ends = s2.value;
            later = validate_schedule-later s1.value s2.value valid;
            starts_printed = refl;
            ends_printed = refl;
          },
          collect-reminders id s1.value new.reminders s8.value s8.first,
        )

  -- An update that is accepted leaves a meeting that ends after it starts, under the same id, in the
  -- same organization and with the same status.
  pub patched-IsScheduled :
      (m : Meeting) (patch : MeetingPatch) {m' : Meeting}
      → patched crates m patch ≡ ok m'
      → IsScheduled m'
        × (m'.id ≡ m.id)
        × (m'.organization_id ≡ m.organization_id)
        × (m'.status ≡ m.status)
  unfolding patched
  patched-IsScheduled m patch {m'} h =
      let s1 = >>=-Succeeds (or_keep normalize_title m.title patch.title) _ h in
      let s2 =
        >>=-Succeeds
          (or_keep (λ value. normalize_description (some value)) m.description patch.description) _
          s1.then_rest in
      let s3 =
        >>=-Succeeds (or_keep (λ value. normalize_timezone (some value)) m.timezone patch.timezone)
          _ s2.then_rest in
      let s4 =
        >>=-Succeeds (parse_time crates (or_stored m.starts_at patch.starts_at) starts_message) _
          s3.then_rest in
      let s5 =
        >>=-Succeeds (parse_time crates (or_stored m.ends_at patch.ends_at) ends_message) _
          s4.then_rest in
      let (valid, s6) = >>-Succeeds (validate_schedule crates s4.value s5.value) _ s5.then_rest in
      subst
        (λ (x : Meeting).
          IsScheduled x
          × (x.id ≡ m.id)
          × (x.organization_id ≡ m.organization_id)
          × (x.status ≡ m.status))
        (ok-injective s6)
        (
          record {
            starts = s4.value;
            ends = s5.value;
            later = validate_schedule-later s4.value s5.value valid;
            starts_printed = refl;
            ends_printed = refl;
          },
          refl,
          refl,
          refl,
        )

All-filter_map-job_of :
    (id : Uuid) (s : MemoryMeetingState) (m : Meeting) (rs : List MeetingReminder)
    → get s.meetings_by_id id ≡ some m
    → text_eqb m.status (text "scheduled") ≡ false
    → All (λ job. nat_eqb job.reminder.meeting_id id ≡ false) (filter_map (job_of s) rs)
All-filter_map-job_of id s m [] found off = tt
All-filter_map-job_of id s m (r ∷ rs) found off = elim (Bool-cases (nat_eqb r.meeting_id id)) [
  | inl same ↦
      let found' : get s.meetings_by_id r.meeting_id ≡ some m = ground (arith, same, found) in
      ground (arith, found', off, All-filter_map-job_of id s m rs found off)
  | inr other ↦ ground (arith, other, All-filter_map-job_of id s m rs found off)
]

-- Once a meeting of the in-memory store is cancelled through the service, none of its reminders is
-- due any more, at whatever time and for whatever batch size.
pub cancel-due_jobs :
    (crates : Crates) (now : crates.DateTime) (bundle : MeetingBundle) (s : MemoryMeetingState)
    (due_at : Text) (limit : ℕ)
    → contains_key s.meetings_by_id bundle.meeting.id ≡ true
    → let after = (Service.cancel crates memory_store now bundle (healthy s)).1.guarded in
      All
        (λ job. nat_eqb job.reminder.meeting_id bundle.meeting.id ≡ false)
        (due_jobs due_at limit after)
unfolding Service.cancel Memory.update_meeting update_meeting_body due_jobs cancelled text_eqb
cancel-due_jobs crates now bundle s due_at limit there =
    let gone : Meeting = cancelled crates now bundle.meeting in
    let after : MemoryMeetingState = record s {
      meetings_by_id = insert s.meetings_by_id bundle.meeting.id gone;
    } in
    let about =
      λ (job : MeetingReminderJob). nat_eqb job.reminder.meeting_id bundle.meeting.id ≡ false in
    let due =
      filter (λ r. is_pending r && text_leb r.scheduled_for due_at)
        (flatten (values s.reminders_by_meeting_id)) in
    rw there (
      All-take about limit (sort_by by_time (filter_map (job_of after) due)) (
        All-sort_by by_time about (filter_map (job_of after) due) (
          All-filter_map-job_of bundle.meeting.id after gone due
            (ground (
              arith,
              get-insert s.meetings_by_id bundle.meeting.id bundle.meeting.id gone,
              beq_refl bundle.meeting.id,
            ))
            refl)))
