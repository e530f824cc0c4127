-- ===== src/Meeting/Worker.antt =====
-- src/domain/reminder.rs: the worker that delivers the reminders that are due. The dispatcher acts on
-- a world of its own; the state of the worker is the store's with that world.
use opencord_server.Base.{ℕ, ◌+◌, max, List, [], ◌∷◌, length, Option, Text, Uuid, Result, ok, err}
use opencord_server.Base.Action.{Action, ◌>>=◌, ◌>>◌, pure}
use opencord_server.Meeting.{MeetingReminderJob, MeetingError}
use opencord_server.Meeting.Store.{MeetingStore}

pub record MeetingReminderDelivery : Type 0 where
  pub reminder_id : Uuid
  pub meeting_id : Uuid
  pub meeting_title : Text
  pub meeting_starts_at : Text
  pub join_slug : Text
  pub channel : Text
  pub recipient_user_id : Option Uuid
  pub recipient_email : Option Text
  pub scheduled_for : Text

pub record ReminderRunSummary : Type 0 where
  pub scanned : ℕ
  pub sent : ℕ
  pub failed : ℕ

-- `MeetingReminderDispatcher::deliver`; the error is its message.
abbrev pub Dispatcher : Type 0 → Type 0
Dispatcher World = MeetingReminderDelivery → World → Result Text (Unit {0}) × World

unfoldable pub delivery_from_job : MeetingReminderJob → MeetingReminderDelivery
delivery_from_job job = record {
  reminder_id = job.reminder.id;
  meeting_id = job.meeting.id;
  meeting_title = job.meeting.title;
  meeting_starts_at = job.meeting.starts_at;
  join_slug = job.meeting.join_slug;
  channel = job.reminder.channel;
  recipient_user_id = job.reminder.recipient_user_id;
  recipient_email = job.reminder.recipient_email;
  scheduled_for = job.reminder.scheduled_for;
}

-- `with_batch_size`
abbrev pub batch_size : ℕ → ℕ
batch_size n = max n 1

-- `summary.sent += 1` and `summary.failed += 1`
unfoldable pub tally : Result Text (Unit {0}) → ReminderRunSummary → ReminderRunSummary
tally (ok _) summary = record summary { sent = summary.sent + 1 }
tally (err _) summary = record summary { failed = summary.failed + 1 }

module _ (store : MeetingStore) {World : Type 0} (dispatcher : Dispatcher World) where
  open store use {State}

  abbrev pub on_store :
      {A : Type 0} → Action State MeetingError A → Action (State × World) MeetingError A
  on_store action (s, w) = let (r, s') = action s in (r, (s', w))

  abbrev deliver :
      MeetingReminderDelivery → Action (State × World) MeetingError (Result Text (Unit {0}))
  deliver delivery (s, w) = let (r, w') = dispatcher delivery w in (ok r, (s, w'))

  -- What the two arms write to the store.
  abbrev pub settle : Uuid → Text → Result Text (Unit {0}) → Action State MeetingError (Unit {0})
  settle reminder_id now (ok _) = store.mark_reminder_sent reminder_id now
  settle reminder_id now (err message) = store.mark_reminder_failed reminder_id now message

  -- The loop over the jobs.
  unfoldable pub run_jobs :
      Text
      → List MeetingReminderJob
      → ReminderRunSummary
      → Action (State × World) MeetingError ReminderRunSummary
  unfolding delivery_from_job
  run_jobs now [] summary = pure summary
  run_jobs now (job ∷ jobs) summary = do
    outcome ← deliver (delivery_from_job job)
    on_store (settle job.reminder.id now outcome)
    run_jobs now jobs (tally outcome summary)

  -- `now` is the printed time of the run.
  unfoldable pub run_once_at : ℕ → Text → Action (State × World) MeetingError ReminderRunSummary
  unfolding run_jobs
  run_once_at batch now = do
    jobs ← on_store (store.list_due_reminders now batch)
    run_jobs now jobs (record { scanned = length jobs; sent = 0; failed = 0 })
