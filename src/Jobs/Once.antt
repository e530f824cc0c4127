-- ===== src/Jobs/Once.antt =====
-- A job runs at most once for a guard.
use opencord_server.Base.{
  ℕ, ◌+◌, Bool, true, false, if◌then◌else◌, List, [], ◌∷◌, length, filter, Text, text_eq, text_eqb,
  text_eqb_iff, text_eqb_refl, contains, Result, ok, err, ◌≡◌, arith, any,
}
use opencord_server.Events.{EventEnvelope}
use opencord_server.Jobs.{
  RetryPolicy, Guard, claim, JobOutcome, duplicate, dead_lettered, DeadLetterEntry, Handler,
  process_job_once, process_job_with_dead_letter, record_entry,
}

module _ {Value World : Type 0} (envelope : EventEnvelope Value) (handler : Handler Value World)
    (policy : RetryPolicy) where
  -- Whatever becomes of a job, its key is claimed afterwards.
  process_job_once-claims :
      (attempt : ℕ) (guard : Guard) (w : World)
      → contains
          (process_job_once envelope attempt handler policy guard w).1.0
          envelope.idempotency_key
        ≡ true
  unfolding process_job_once claim
  process_job_once-claims attempt guard w = ground (arith, text_eqb_refl envelope.idempotency_key)

  -- A job whose key is claimed is a duplicate: the handler is not called and nothing changes.
  process_job_once-duplicate :
      (attempt : ℕ) (guard : Guard) (w : World)
      → contains guard envelope.idempotency_key ≡ true
      → process_job_once envelope attempt handler policy guard w ≡ (duplicate, (guard, w))
  unfolding process_job_once claim
  process_job_once-duplicate attempt guard w h = rw h

abbrev pub is_dead : JobOutcome → Bool
is_dead dead_lettered = true
is_dead _ = false

-- The message of a failed handler.
abbrev pub reason_of : Result Text (Unit {0}) → Text
reason_of (ok _) = []
reason_of (err reason) = reason

-- With the sink for dead letters, the outcome, the guard and the world are those of
-- `process_job_once`, and the sink gains one entry at its end, with the job's key and attempt and the
-- handler's error, exactly when the outcome is the dead letter.
pub process_job_with_dead_letter_lem :
    {Value World : Type 0} (envelope : EventEnvelope Value) (attempt : ℕ)
    (handler : Handler Value World) (policy : RetryPolicy) (guard : Guard)
    (entries : List DeadLetterEntry) (w : World)
    → let plain = process_job_once envelope attempt handler policy guard w in
      let reason = reason_of (handler envelope w).0 in
      process_job_with_dead_letter envelope attempt handler policy guard entries w ≡ (
        plain.0,
        (
          plain.1.0,
          (
            plain.1.1,
            if is_dead plain.0 then record_entry envelope attempt reason entries else entries,
          ),
        ),
      )
unfolding process_job_once process_job_with_dead_letter claim
process_job_with_dead_letter_lem envelope attempt handler policy guard entries w = ground arith

-- A handler that keeps a log of the envelopes that it is called with.
abbrev pub logging :
    {Value : Type 0}
    → (EventEnvelope Value → List (EventEnvelope Value) → Result Text (Unit {0}))
    → Handler Value (List (EventEnvelope Value))
logging answer envelope log = (answer envelope log, envelope ∷ log)

module _ {Value : Type 0}
    (answer : EventEnvelope Value → List (EventEnvelope Value) → Result Text (Unit {0}))
    (policy : RetryPolicy) where
  -- Deliveries one after the other, each with its attempt number.
  unfoldable pub deliver :
      List (EventEnvelope Value × ℕ)
      → Guard
      → List (EventEnvelope Value)
      → Guard × List (EventEnvelope Value)
  deliver [] guard log = (guard, log)
  deliver ((e, attempt) ∷ jobs) guard log =
      let (_, s) = process_job_once e attempt (logging answer) policy guard log in
      deliver jobs s.0 s.1

module _ {Value : Type 0} (key : Text) where
  abbrev pub calls : List (EventEnvelope Value) → ℕ
  calls log = length (filter (λ e. text_eqb e.idempotency_key key) log)

  abbrev pub delivered : List (EventEnvelope Value × ℕ) → Bool
  delivered jobs = any (λ j. text_eqb j.0.idempotency_key key) jobs

-- Over any list of deliveries, whatever the handler answers, it is called exactly once for a key
-- that is delivered and was not claimed before, and not at all for any other.
pub calls-deliver :
    {Value : Type 0}
    (answer : EventEnvelope Value → List (EventEnvelope Value) → Result Text (Unit {0}))
    (policy : RetryPolicy) (key : Text) (jobs : List (EventEnvelope Value × ℕ)) (guard : Guard)
    (log : List (EventEnvelope Value))
    → calls key (deliver answer policy jobs guard log).1
      ≡ calls key log + (if contains guard key then 0 else if delivered key jobs then 1 else 0)
unfolding deliver process_job_once claim
calls-deliver answer policy key [] guard log = ground arith
calls-deliver answer policy key ((e, attempt) ∷ jobs) guard log =
    let s = process_job_once e attempt (logging answer) policy guard log in
    ground (
      arith,
      calls-deliver answer policy key jobs s.1.0 s.1.1,
      text_eqb_iff e.idempotency_key key,
      text_eqb_iff key e.idempotency_key,
    )
