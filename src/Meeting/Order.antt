-- ===== src/Meeting/Order.antt =====
-- Which reminders are due in the in-memory store, and in which order a run takes them.
use opencord_server.Base.{
  ℕ, ◌≤◌, ◌&&◌, Bool, true, List, [], ◌∷◌, All, filter, filter_map, take, some, Text, text,
  text_eqb, text_eqb_iff, text_leb, text_ltb, nat_eq, sort_by, ◌≡◌, refl, sym, arith, ap, ◌∙◌, ◌↔◌,
  ◌⊎◌, inl, inr, Bool-cases, Option-cases,
}
use mathlib.Core.Path.{subst}
use opencord_server.Base.Map.{get, values}
use opencord_server.Base.Member.{
  ◌∈◌, mem-filter_iff, mem-filter_map_iff, mem-sort_by_iff, Sorted, IsOrder, sort_by-Sorted,
}
use opencord_server.Base.Order.{text_ltb_total, text_ltb_trans}
use opencord_server.Meeting.{MeetingReminder, MeetingReminderJob}
use opencord_server.Meeting.Memory.{
  MemoryMeetingState, is_pending, flatten, job_of, by_time, due_jobs,
}

-- A job is due: its reminder is stored, pending and not for later, and the meeting that the reminder
-- names is stored, scheduled and the job's.
pub record IsDue (now : Text) (s : MemoryMeetingState) (job : MeetingReminderJob) : Type 0 where
  pub stored : job.reminder ∈ flatten (values s.reminders_by_meeting_id)
  pub is_pending_now : job.reminder.status ≡ text "pending"
  pub is_time : text_leb job.reminder.scheduled_for now ≡ true
  pub has_meeting : get s.meetings_by_id job.reminder.meeting_id ≡ some job.meeting
  pub is_scheduled : job.meeting.status ≡ text "scheduled"

-- The one is for an earlier time, or for the same time and has no greater id.
abbrev pub Precedes : MeetingReminderJob → MeetingReminderJob → Type 0
Precedes a b =
    (text_ltb a.reminder.scheduled_for b.reminder.scheduled_for ≡ true)
    ⊎ ((a.reminder.scheduled_for ≡ b.reminder.scheduled_for) × (a.reminder.id ≤ b.reminder.id))

abbrev pub InOrder : List MeetingReminderJob → Type 0
InOrder [] = Unit
InOrder (x ∷ xs) = All (Precedes x) xs × InOrder xs

by_time-IsOrder : IsOrder by_time
by_time-IsOrder = record {
  total = λ x y h.
      let a = x.reminder.scheduled_for in
      let b = y.reminder.scheduled_for in
      ground (arith, h, text_ltb_total a b, text_eqb_iff a b, text_eqb_iff b a);
  trans = λ x y z h k.
      let a = x.reminder.scheduled_for in
      let b = y.reminder.scheduled_for in
      let c = z.reminder.scheduled_for in
      ground
        (arith, h, k, text_ltb_trans a b c, text_eqb_iff a b, text_eqb_iff b c, text_eqb_iff a c);
}

by_time-Precedes : (a b : MeetingReminderJob) → by_time a b ≡ true → Precedes a b
by_time-Precedes a b h =
    elim (Bool-cases (text_ltb a.reminder.scheduled_for b.reminder.scheduled_for)) [
      | inl earlier ↦ inl earlier
      | inr not_earlier ↦ inr (
          ground
            (arith, h, not_earlier, text_eqb_iff a.reminder.scheduled_for b.reminder.scheduled_for))
    ]

All-Precedes :
    (a : MeetingReminderJob) (xs : List MeetingReminderJob)
    → All (λ b. by_time a b ≡ true) xs
    → All (Precedes a) xs
All-Precedes a [] h = tt
All-Precedes a (b ∷ xs) (h, hs) = (by_time-Precedes a b h, All-Precedes a xs hs)

Sorted-InOrder : (xs : List MeetingReminderJob) → Sorted by_time xs → InOrder xs
Sorted-InOrder [] h = tt
Sorted-InOrder (x ∷ xs) (h, hs) = (All-Precedes x xs h, Sorted-InOrder xs hs)

abbrev is_due : Text → MeetingReminder → Bool
is_due now r = is_pending r && text_leb r.scheduled_for now

-- The job of a reminder, as `job_of` makes it.
job_of-made :
    (s : MemoryMeetingState) (r : MeetingReminder) (job : MeetingReminderJob)
    → job_of s r ≡ some job
    → (job.reminder ≡ r)
      × (get s.meetings_by_id r.meeting_id ≡ some job.meeting)
      × (job.meeting.status ≡ text "scheduled")
job_of-made s r job h = elim (Option-cases (get s.meetings_by_id r.meeting_id)) [
  | inl missing ↦ cc (rw (missing, job_of) at h)
  | inr (m, found) ↦ elim (Bool-cases (text_eqb m.status (text "scheduled"))) [
    | inr not_scheduled ↦ cc (rw (found, job_of, not_scheduled) at h)
    | inl scheduled ↦
        let same = rw (found, job_of, scheduled) at h in
        ground (arith, same, found, text_eqb_iff m.status (text "scheduled"))
  ]
]

job_of-makes :
    (now : Text) (s : MemoryMeetingState) (job : MeetingReminderJob)
    → IsDue now s job
    → job_of s job.reminder ≡ some job
job_of-makes now s job due =
    rw
      (
        job_of,
        due.has_meeting,
        (text_eqb_iff job.meeting.status (text "scheduled")).1 due.is_scheduled,
      )
      refl

abbrev made_jobs : Text → MemoryMeetingState → List MeetingReminderJob
made_jobs now s =
    filter_map (job_of s) (filter (is_due now) (flatten (values s.reminders_by_meeting_id)))

made_jobs-IsDue :
    (now : Text) (s : MemoryMeetingState) (job : MeetingReminderJob)
    → job ∈ made_jobs now s ↔ IsDue now s job
made_jobs-IsDue now s job =
    let rs = flatten (values s.reminders_by_meeting_id) in
    let (forth, back) = mem-filter_map_iff (job_of s) job (filter (is_due now) rs) in
    (
      λ h.
          let (r, among, made) = forth h in
          let (same, found, scheduled) = job_of-made s r job made in
          let (there, passes) = (mem-filter_iff (is_due now) r rs).0 among in
          record {
            stored = subst (λ x. x ∈ rs) (sym same) there;
            is_pending_now =
                ap (λ (x : MeetingReminder). x.status) same
                ∙ (text_eqb_iff r.status (text "pending")).0 (ground (arith, passes));
            is_time =
                subst (λ (x : MeetingReminder). text_leb x.scheduled_for now ≡ true) (sym same)
                  (ground (arith, passes));
            has_meeting =
                ap (λ (x : MeetingReminder). get s.meetings_by_id x.meeting_id) same ∙ found;
            is_scheduled = scheduled;
          },
      λ due. back (
        job.reminder,
        (mem-filter_iff (is_due now) job.reminder rs).1 (
          due.stored,
          ground (
            arith,
            due.is_time,
            (text_eqb_iff job.reminder.status (text "pending")).1 due.is_pending_now,
          ),
        ),
        job_of-makes now s job due,
      ),
    )

-- Every job that is due and no other, the earliest first; a batch is a beginning of that list.
pub record DueInOrder (now : Text) (s : MemoryMeetingState) : Type 0 where
  pub all_due : List MeetingReminderJob
  pub is_all : (job : MeetingReminderJob) → job ∈ all_due ↔ IsDue now s job
  pub in_order : InOrder all_due
  pub batches : (batch : ℕ) → due_jobs now batch s ≡ take batch all_due

pub due_jobs-DueInOrder : (now : Text) (s : MemoryMeetingState) → DueInOrder now s
unfolding due_jobs
due_jobs-DueInOrder now s =
    let made = made_jobs now s in
    record {
      all_due = sort_by by_time made;
      is_all = λ job.
          let (out, into) = mem-sort_by_iff by_time job made in
          let (forth, back) = made_jobs-IsDue now s job in
          (λ h. forth (out h), λ due. into (back due));
      in_order =
          Sorted-InOrder (sort_by by_time made) (sort_by-Sorted by_time by_time-IsOrder made);
      batches = λ batch. refl;
    }
