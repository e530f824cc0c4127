-- ===== src/Meeting/Pending.antt =====
-- How many pending reminders of an id the in-memory store holds, and how marking one changes that.
use opencord_server.Base.{
  ℕ, ◌+◌, ◌<◌, ◌&&◌, Bool, false, nat_eqb, if◌then◌else◌, List, [], ◌∷◌, ◌++◌, none, some, Text,
  Uuid, text, text_eqb, nat_eq, ok, ◌≡◌, refl, arith, Option-cases, inl, inr,
}
use opencord_server.Base.Map.{HashMap, values}
use opencord_server.Meeting.{MeetingReminder}
use opencord_server.Meeting.Memory.{
  MemoryMeetingState, is_pending, flatten, mark_in, mark_in_values, update_reminder_status_body,
}

module _ {ℓ} {A : Type ℓ} (p : A → Bool) where
  abbrev pub count : List A → ℕ
  count [] = 0
  count (x ∷ xs) = (if p x then 1 else 0) + count xs

  pub count-append : (xs ys : List A) → count (xs ++ ys) ≡ count xs + count ys
  count-append [] ys = omega arith
  count-append (x ∷ xs) ys = omega (arith, count-append xs ys)

abbrev pub pending : Uuid → MeetingReminder → Bool
pending id r = nat_eqb r.id id && is_pending r

abbrev pub pending_in : Uuid → HashMap Uuid (List MeetingReminder) → ℕ
pending_in id m = count (pending id) (flatten (values m))

abbrev pub pending_count : Uuid → MemoryMeetingState → ℕ
pending_count id s = pending_in id s.reminders_by_meeting_id

abbrev pub one_if : Uuid → Uuid → ℕ
one_if id j = if nat_eqb id j then 1 else 0

module _ (id : Uuid) (status : Text) where
  mark_in-none :
      (rs : List MeetingReminder) → mark_in id status rs ≡ none → count (pending id) rs ≡ 0
  unfolding mark_in
  mark_in-none [] h = refl
  mark_in-none (r ∷ rs) h = ground (arith, mark_in-none rs)

  mark_in-some :
      (j : Uuid) (rs rs' : List MeetingReminder)
      → text_eqb status (text "pending") ≡ false
      → mark_in id status rs ≡ some rs'
      → count (pending j) rs' + one_if id j ≡ count (pending j) rs
  unfolding mark_in
  mark_in-some j [] rs' h e = cc
  mark_in-some j (r ∷ rs) rs' h e = elim (Option-cases (mark_in id status rs)) [
    | inl missing ↦ ground (arith, missing, e, h)
    | inr (later, found) ↦ ground (arith, found, e, h, mark_in-some j rs later h found)
  ]

  mark_in_values-none :
      (m : HashMap Uuid (List MeetingReminder))
      → mark_in_values id status m ≡ none
      → pending_in id m ≡ 0
  unfolding mark_in_values flatten
  mark_in_values-none [] h = refl
  mark_in_values-none ((k, rs) ∷ m) h = elim (Option-cases (mark_in id status rs)) [
    | inr (rs', found) ↦ cc (rw (found, mark_in_values) at h)
    | inl missing ↦ elim (Option-cases (mark_in_values id status m)) [
      | inr (m', found) ↦ cc (rw (missing, mark_in_values, found) at h)
      | inl missing' ↦ omega (
        arith,
        count-append (pending id) rs (flatten (values m)),
        mark_in-none rs missing,
        mark_in_values-none m missing',
      )
    ]
  ]

  mark_in_values-some :
      (j : Uuid) (m m' : HashMap Uuid (List MeetingReminder))
      → text_eqb status (text "pending") ≡ false
      → mark_in_values id status m ≡ some m'
      → pending_in j m' + one_if id j ≡ pending_in j m
  unfolding mark_in_values flatten
  mark_in_values-some j [] m' h e = cc
  mark_in_values-some j ((k, rs) ∷ m) m' h e = elim (Option-cases (mark_in id status rs)) [
    | inr (rs', found) ↦ ground (
      arith,
      rw (found, mark_in_values) at e,
      count-append (pending j) rs (flatten (values m)),
      count-append (pending j) rs' (flatten (values m)),
      mark_in-some j rs rs' h found,
    )
    | inl missing ↦ elim (Option-cases (mark_in_values id status m)) [
      | inl missing' ↦ cc (rw (missing, mark_in_values, missing') at e)
      | inr (later, found) ↦ ground (
        arith,
        rw (missing, mark_in_values, found) at e,
        count-append (pending j) rs (flatten (values m)),
        count-append (pending j) rs (flatten (values later)),
        mark_in_values-some j m later h found,
      )
    ]
  ]

-- Marking a reminder took one pending reminder of that id, and touched no other.
pub record Marked (id : Uuid) (status : Text) (s : MemoryMeetingState) : Type 0 where
  pub after : MemoryMeetingState
  pub marks : update_reminder_status_body id status s ≡ (ok tt, after)
  pub takes_one : (j : Uuid) → pending_count j after + one_if id j ≡ pending_count j s
  pub same_meetings : after.meetings_by_id ≡ s.meetings_by_id

pub update_reminder_status-Marked :
    (id : Uuid) (status : Text) (s : MemoryMeetingState)
    → text_eqb status (text "pending") ≡ false
    → 0 < pending_count id s
    → Marked id status s
unfolding update_reminder_status_body
update_reminder_status-Marked id status s h some_pending =
    elim (Option-cases (mark_in_values id status s.reminders_by_meeting_id)) [
      | inl missing ↦
          absurd (omega (arith, mark_in_values-none id status s.reminders_by_meeting_id missing))
      | inr (m, found) ↦ record {
        after = record s { reminders_by_meeting_id = m };
        marks = rw (found, update_reminder_status_body) refl;
        takes_one = λ j. mark_in_values-some id status j s.reminders_by_meeting_id m h found;
        same_meetings = refl;
      }
    ]
