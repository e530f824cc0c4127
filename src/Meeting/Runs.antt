-- ===== src/Meeting/Runs.antt =====
-- What runs of the reminder worker over the in-memory store do: every job of a run is delivered, and
-- every delivery takes one pending reminder of its id.
use opencord_server.Base.{
  ℕ, zero, suc, ◌+◌, ◌≤◌, ◌<◌, nat_eqb, List, [], ◌∷◌, length, Text, Uuid, text, text_eqb, Result,
  ok, err, Bool, true, false, not, if◌then◌else◌, take, ap, ◌↔◌, ◌≡◌, refl, arith, ◌∙◌,
}
use opencord_server.Base.Action.{healthy}
use opencord_server.Meeting.{MeetingReminderJob}
use opencord_server.Meeting.Memory
use opencord_server.Meeting.Memory.{
  MemoryMeetingState, memory_store, update_reminder_status_body, due_jobs, list_due_reminders,
  mark_reminder_sent, mark_reminder_failed,
}
use opencord_server.Meeting.Worker.{
  MeetingReminderDelivery, ReminderRunSummary, Dispatcher, delivery_from_job, tally, run_jobs,
  run_once_at, settle,
}
use opencord_server.Meeting.Pending.{count, pending_count, one_if, update_reminder_status-Marked}
use opencord_server.Base.Member.{◌∈◌}
use opencord_server.Meeting.Due.{is_about, count-due_jobs}
use opencord_server.Meeting.Order.{IsDue, InOrder, due_jobs-DueInOrder}

-- A dispatcher that notes what it was asked to deliver, and answers as it likes.
abbrev pub recording :
    (MeetingReminderDelivery → Result Text (Unit {0})) → Dispatcher (List MeetingReminderDelivery)
recording answer delivery log = (answer delivery, delivery ∷ log)

abbrev pub deliveries : Uuid → List MeetingReminderDelivery → ℕ
deliveries id = count (λ d. nat_eqb d.reminder_id id)

abbrev pub Log : Type 0
Log = List MeetingReminderDelivery

abbrev is_outcome : Bool → Result Text (Unit {0}) → Bool
is_outcome accepted (ok _) = accepted
is_outcome accepted (err _) = not accepted

module _ (answer : MeetingReminderDelivery → Result Text (Unit {0})) (now : Text) where
  -- The dispatcher accepts the delivery of the job, or refuses it.
  abbrev pub is_answered : Bool → MeetingReminderJob → Bool
  is_answered accepted job = is_outcome accepted (answer (delivery_from_job job))

  -- What the loop does to a healthy store, in which every job has its own pending reminder.
  pub record RunsJobs (jobs : List MeetingReminderJob) (summary : ReminderRunSummary)
      (s : MemoryMeetingState) (log : Log) : Type 0 where
    pub final : ReminderRunSummary
    pub after : MemoryMeetingState
    pub log_after : Log
    pub returns :
        run_jobs memory_store (recording answer) now jobs summary (healthy s, log)
        ≡ (ok final, (healthy after, log_after))
    pub delivers :
        (id : Uuid) → deliveries id log_after ≡ deliveries id log + count (is_about id) jobs
    pub takes : (id : Uuid) → pending_count id after + count (is_about id) jobs ≡ pending_count id s
    pub sent_exact : final.sent ≡ summary.sent + count (is_answered true) jobs
    pub failed_exact : final.failed ≡ summary.failed + count (is_answered false) jobs
    pub same_scanned : final.scanned ≡ summary.scanned

  -- One job.
  record Settled (id : Uuid) (outcome : Result Text (Unit {0})) (s : MemoryMeetingState)
      : Type 0 where
    after : MemoryMeetingState
    settles :
        settle memory_store (recording answer) id now outcome (healthy s) ≡ (ok tt, healthy after)
    takes_one : (j : Uuid) → pending_count j after + one_if id j ≡ pending_count j s

  settle-Settled :
      (id : Uuid) (outcome : Result Text (Unit {0})) (s : MemoryMeetingState)
      → 0 < pending_count id s
      → Settled id outcome s
  unfolding mark_reminder_sent mark_reminder_failed text_eqb
  settle-Settled id (ok _) s h =
      let m = update_reminder_status-Marked id (text "sent") s refl h in
      record { after = m.after; settles = rw (m.marks) refl; takes_one = m.takes_one }
  settle-Settled id (err message) s h =
      let m = update_reminder_status-Marked id (text "failed") s refl h in
      record { after = m.after; settles = rw (m.marks) refl; takes_one = m.takes_one }

  tally-counts :
      (outcome : Result Text (Unit {0})) (summary : ReminderRunSummary)
      → let t = tally outcome summary in
        (t.sent ≡ summary.sent + (if is_outcome true outcome then 1 else 0))
        × (t.failed ≡ summary.failed + (if is_outcome false outcome then 1 else 0))
        × (t.scanned ≡ summary.scanned)
  unfolding tally
  tally-counts (ok _) summary = (omega arith, omega arith, refl)
  tally-counts (err _) summary = (omega arith, omega arith, refl)

  run_jobs-RunsJobs :
      (jobs : List MeetingReminderJob) (summary : ReminderRunSummary) (s : MemoryMeetingState)
      (log : Log)
      → ((id : Uuid) → count (is_about id) jobs ≤ pending_count id s)
      → RunsJobs jobs summary s log
  unfolding run_jobs delivery_from_job
  run_jobs-RunsJobs [] summary s log h = record {
    final = summary;
    after = s;
    log_after = log;
    returns = refl;
    delivers = λ id. omega arith;
    takes = λ id. omega arith;
    sent_exact = omega arith;
    failed_exact = omega arith;
    same_scanned = refl;
  }
  run_jobs-RunsJobs (job ∷ jobs) summary s log h =
      let id = job.reminder.id in
      let d = delivery_from_job job in
      let outcome = answer d in
      let counts = tally-counts outcome summary in
      let one = settle-Settled id outcome s (ground (arith, h id)) in
      let fits : ((j : Uuid) → count (is_about j) jobs ≤ pending_count j one.after) =
        λ j. ground (arith, h j, one.takes_one j) in
      let rest = run_jobs-RunsJobs jobs (tally outcome summary) one.after (d ∷ log) fits in
      record {
        final = rest.final;
        after = rest.after;
        log_after = rest.log_after;
        returns = rw (one.settles) rest.returns;
        delivers = λ j. ground (arith, rest.delivers j);
        takes = λ j. ground (arith, rest.takes j, one.takes_one j);
        sent_exact = omega (arith, rest.sent_exact, counts.0);
        failed_exact = omega (arith, rest.failed_exact, counts.1);
        same_scanned = rest.same_scanned ∙ counts.2;
      }

  list_due_reminders-due_jobs :
      (batch : ℕ) (s : MemoryMeetingState)
      → list_due_reminders now batch (healthy s) ≡ (ok (due_jobs now batch s), healthy s)
  unfolding list_due_reminders due_jobs
  list_due_reminders-due_jobs zero s = refl
  list_due_reminders-due_jobs (suc n) s = refl

  -- A whole run, on the first `batch` of the jobs that are due.
  pub record RunsOnce (batch : ℕ) (s : MemoryMeetingState) (log : Log) : Type 0 where
    pub all_due : List MeetingReminderJob
    pub is_all : (job : MeetingReminderJob) → job ∈ all_due ↔ IsDue now s job
    pub in_order : InOrder all_due
    pub final : ReminderRunSummary
    pub after : MemoryMeetingState
    pub log_after : Log
    pub returns :
        run_once_at memory_store (recording answer) batch now (healthy s, log)
        ≡ (ok final, (healthy after, log_after))
    pub every_job :
        (id : Uuid)
        → deliveries id log_after ≡ deliveries id log + count (is_about id) (take batch all_due)
    pub conserves :
        (id : Uuid)
        → deliveries id log_after + pending_count id after ≡ deliveries id log + pending_count id s
    pub all_scanned : final.scanned ≡ length (take batch all_due)
    pub all_sent : final.sent ≡ count (is_answered true) (take batch all_due)
    pub all_failed : final.failed ≡ count (is_answered false) (take batch all_due)

  -- A run over the in-memory store with a lock that is not poisoned never fails, whatever the
  -- dispatcher answers. The jobs that are due are those of stored reminders that are pending and not
  -- for later, of meetings that are stored and scheduled. In the order of their times, and of their ids
  -- at one time, the run takes as many of them as the batch allows: it makes, for every reminder id, one
  -- delivery for each such job, and no other; each delivery leaves one pending reminder less of its id;
  -- and the summary counts the jobs, those whose delivery was accepted and those whose was refused.
  pub run_once_at-RunsOnce : (batch : ℕ) (s : MemoryMeetingState) (log : Log) → RunsOnce batch s log
  unfolding run_once_at
  run_once_at-RunsOnce batch s log =
      let jobs = due_jobs now batch s in
      let due = due_jobs-DueInOrder now s in
      let taken = due.batches batch in
      let start : ReminderRunSummary = record { scanned = length jobs; sent = 0; failed = 0 } in
      let run = run_jobs-RunsJobs jobs start s log (λ id. count-due_jobs id now batch s) in
      record {
        all_due = due.all_due;
        is_all = due.is_all;
        in_order = due.in_order;
        final = run.final;
        after = run.after;
        log_after = run.log_after;
        returns = rw (list_due_reminders-due_jobs batch s) run.returns;
        every_job =
            λ id. run.delivers id ∙ ap (λ js. deliveries id log + count (is_about id) js) taken;
        conserves = λ id. omega (arith, run.delivers id, run.takes id);
        all_scanned = run.same_scanned ∙ ap length taken;
        all_sent = omega (arith, run.sent_exact, ap (count (is_answered true)) taken);
        all_failed = omega (arith, run.failed_exact, ap (count (is_answered false)) taken);
      }

-- The runs of a worker, one after the other, each at its own time.
unfoldable pub run_at_times :
    (MeetingReminderDelivery → Result Text (Unit {0}))
    → ℕ
    → List Text
    → Memory.State × Log
    → Memory.State × Log
run_at_times answer batch [] st = st
run_at_times answer batch (now ∷ times) st =
    run_at_times answer batch times (run_once_at memory_store (recording answer) batch now st).1

-- Over any number of runs, from an in-memory store with a lock that is not poisoned, and for every
-- reminder id: the deliveries that were made and the reminders that are pending add up to what they
-- were at the start, whatever the dispatcher answers. The lock is still not poisoned at the end.
pub run_at_times-deliveries :
    (answer : MeetingReminderDelivery → Result Text (Unit {0})) (batch : ℕ) (times : List Text)
    (s : MemoryMeetingState) (log : Log)
    → (after : MemoryMeetingState) × (log_after : Log) × (run_at_times answer batch times
          (healthy s, log)
        ≡ (healthy after, log_after))
      × ((id : Uuid)
          → deliveries id log_after + pending_count id after
            ≡ deliveries id log + pending_count id s)
unfolding run_at_times
run_at_times-deliveries answer batch [] s log = (s, log, refl, λ id. refl)
run_at_times-deliveries answer batch (now ∷ times) s log =
    let run = run_once_at-RunsOnce answer now batch s log in
    let (after, log_after, ends, conserves) =
      run_at_times-deliveries answer batch times run.after run.log_after in
    (after, log_after, rw (run.returns) ends, λ id. omega (arith, conserves id, run.conserves id))
