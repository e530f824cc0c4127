-- ===== src/Meeting/Tests.antt =====
-- Tests of the meetings and of the reminder worker, and their theorems at concrete inputs.
use opencord_server.Base.{
  ℕ, ◌+◌, false, nat_eqb, ltb, [], ◌∷◌, All, none, some, Text, Uuid, text, text_eqb, text_eq,
  nat_eq, Result, ok, err, ◌≡◌, refl, text_leb, sort_by, insert_sorted,
}
use opencord_server.Base.Int.{pos}
use opencord_server.Base.Map.{get}
use opencord_server.Base.Action.{healthy}
use opencord_server.Meeting.{Meeting, MeetingReminder, MeetingBundle, MeetingPatch, Crates}
use opencord_server.Meeting.Draft.{NewMeeting}
use opencord_server.Meeting.Memory.{
  MemoryMeetingState, memory_store, due_jobs, list_due_reminders, mark_reminder_failed,
}
use opencord_server.Meeting.Service
use opencord_server.Meeting.Worker.{MeetingReminderDelivery, run_once_at, tally}
use opencord_server.Meeting.Pending.{pending_count}
use opencord_server.Meeting.Runs.{
  Log, recording, deliveries, run_at_times, run_at_times-deliveries, RunsOnce, run_once_at-RunsOnce,
}
use opencord_server.Meeting.Schedule.{cancel-due_jobs}

abbrev number : Text → ℕ
number [] = 0
number (c ∷ s) = c

-- Instants are numbers, printed as one character.
abbrev crates : Crates
crates = record {
  DateTime = ℕ;
  parse_from_rfc3339 = λ s. some (number s);
  to_rfc3339 = λ t. t ∷ [];
  is_after = λ a b. ltb b a;
  minus_minutes = λ t m. t;
  simple = λ id. id ∷ [];
}

abbrev planned : Meeting
planned = record {
  id = 1;
  organization_id = 7;
  space_id = none;
  channel_id = none;
  created_by_user_id = 9;
  title = text "Plan";
  description = none;
  status = text "scheduled";
  starts_at = 50 ∷ [];
  ends_at = 60 ∷ [];
  timezone = text "UTC";
  join_slug = text "mtg-1";
  cancelled_at = none;
}

abbrev reminder : MeetingReminder
reminder = record {
  id = 5;
  meeting_id = 1;
  recipient_user_id = some 9;
  recipient_email = none;
  channel = text "push";
  offset_minutes = pos 0;
  scheduled_for = 50 ∷ [];
  status = text "pending";
}

abbrev sample : MemoryMeetingState
sample = record {
  meetings_by_id = (1, planned) ∷ [];
  attendees_by_meeting_id = [];
  reminders_by_meeting_id = (1, reminder ∷ []) ∷ [];
}

abbrev down : MeetingReminderDelivery → Result Text (Unit {0})
down _ = err (text "down")

-- A reminder whose delivery fails is counted as failed, and not delivered again.
failed_once :
    let first = run_once_at memory_store (recording down) 100 (55 ∷ []) (healthy sample, []) in
    (first.0 ≡ ok (record { scanned = 1; sent = 0; failed = 1 }))
    × ((run_once_at memory_store (recording down) 100 (56 ∷ []) first.1).0
        ≡ ok (record { scanned = 0; sent = 0; failed = 0 }))
unfolding run_once_at list_due_reminders sort_by text_eqb text_leb get insert_sorted
    mark_reminder_failed tally
failed_once = (refl, refl)

run_once_at-RunsOnce_example : RunsOnce down (55 ∷ []) 100 sample []
run_once_at-RunsOnce_example = run_once_at-RunsOnce down (55 ∷ []) 100 sample []

run_at_times-deliveries_example :
    (after : MemoryMeetingState) × (log_after : Log) × (run_at_times down 100
        ((55 ∷ []) ∷ (56 ∷ []) ∷ [])
        (healthy sample, [])
      ≡ (healthy after, log_after))
    × ((id : Uuid) → deliveries id log_after + pending_count id after ≡ 0 + pending_count id sample)
run_at_times-deliveries_example =
    run_at_times-deliveries down 100 ((55 ∷ []) ∷ (56 ∷ []) ∷ []) sample []

abbrev request : NewMeeting
request = record {
  organization_id = 7;
  space_id = none;
  channel_id = none;
  created_by_user_id = 9;
  title = text " Plan";
  description = none;
  starts_at = 50 ∷ [];
  ends_at = 60 ∷ [];
  timezone = none;
  attendees = [];
  reminders =
      (
        5,
        record {
          recipient_user_id = some 9;
          recipient_email = none;
          channel = text "Push";
          offset_minutes = pos 0;
        },
      )
      ∷ [];
}

abbrev request_bundle : MeetingBundle
request_bundle = record {
  meeting = record planned { join_slug = text "mtg-\u{1}" };
  attendees = [];
  reminders = reminder ∷ [];
}

abbrev later : MeetingPatch
later = record {
  title = none;
  description = none;
  starts_at = some (55 ∷ []);
  ends_at = none;
  timezone = none;
}

cancel-due_jobs_example :
    let bundle : MeetingBundle = record { meeting = planned; attendees = []; reminders = [] } in
    let after = (Service.cancel crates memory_store 51 bundle (healthy sample)).1.guarded in
    All (λ job. nat_eqb job.reminder.meeting_id 1 ≡ false) (due_jobs (70 ∷ []) 100 after)
unfolding get
cancel-due_jobs_example =
    cancel-due_jobs crates 51 (record { meeting = planned; attendees = []; reminders = [] }) sample
      (70 ∷ []) 100 refl
