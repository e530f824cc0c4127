-- ===== src/Meeting/Due.antt =====
-- The jobs of a run are about pending reminders: no more jobs of an id than pending reminders of it.
use opencord_server.Base.{
  ℕ, zero, suc, ◌≤◌, ◌&&◌, Bool, nat_eqb, List, [], ◌∷◌, filter, filter_map, take, Text, Uuid,
  nat_eq, text_leb, sort_by, insert_sorted, ◌≡◌, refl, arith,
}
use opencord_server.Base.Map.{values}
use opencord_server.Meeting.{MeetingReminder, MeetingReminderJob}
use opencord_server.Meeting.Memory.{
  MemoryMeetingState, is_pending, flatten, job_of, by_time, due_jobs,
}
use opencord_server.Meeting.Pending.{count, pending, pending_count}

module _ {A : Type 0} (p : A → Bool) where
  count-take : (n : ℕ) (xs : List A) → count p (take n xs) ≤ count p xs
  count-take zero xs = omega arith
  count-take (suc n) [] = omega arith
  count-take (suc n) (x ∷ xs) = omega (arith, count-take n xs)

  count-insert_sorted :
      (leq : A → A → Bool) (x : A) (xs : List A)
      → count p (insert_sorted leq x xs) ≡ count p (x ∷ xs)
  unfolding insert_sorted
  count-insert_sorted leq x [] = refl
  count-insert_sorted leq x (y ∷ ys) = ground (arith, count-insert_sorted leq x ys)

  count-sort_by : (leq : A → A → Bool) (xs : List A) → count p (sort_by leq xs) ≡ count p xs
  unfolding sort_by
  count-sort_by leq [] = refl
  count-sort_by leq (x ∷ xs) =
      omega (arith, count-insert_sorted leq x (sort_by leq xs), count-sort_by leq xs)

abbrev pub is_about : Uuid → MeetingReminderJob → Bool
is_about id job = nat_eqb job.reminder.id id

count-job_of :
    (id : Uuid) (s : MemoryMeetingState) (due_at : Text) (rs : List MeetingReminder)
    → count
        (is_about id)
        (filter_map (job_of s) (filter (λ r. is_pending r && text_leb r.scheduled_for due_at) rs))
      ≤ count (pending id) rs
count-job_of id s due_at [] = omega arith
count-job_of id s due_at (r ∷ rs) = ground (arith, count-job_of id s due_at rs)

pub count-due_jobs :
    (id : Uuid) (due_at : Text) (limit : ℕ) (s : MemoryMeetingState)
    → count (is_about id) (due_jobs due_at limit s) ≤ pending_count id s
unfolding due_jobs
count-due_jobs id due_at limit s =
    let due =
      filter (λ r. is_pending r && text_leb r.scheduled_for due_at)
        (flatten (values s.reminders_by_meeting_id)) in
    omega (
      arith,
      count-take (is_about id) limit (sort_by by_time (filter_map (job_of s) due)),
      count-sort_by (is_about id) by_time (filter_map (job_of s) due),
      count-job_of id s due_at (flatten (values s.reminders_by_meeting_id)),
    )
