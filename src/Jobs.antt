-- ===== src/Jobs.antt =====
-- src/jobs/mod.rs: the retry policy, the idempotency guard and the processing of one job. The
-- handler is a parameter that acts on a world of its own.
pub mod Backoff
pub mod Once
mod Tests
use opencord_server.Base.{
  ℕ, ◌-◌, ◌*◌, ◌^◌, min, max, Bool, true, false, leb, if◌then◌else◌, List, [], ◌∷◌, ◌++◌, Text,
  text_eq, contains, Result, ok, err,
}
use opencord_server.Events.{EventEnvelope}

pub record RetryPolicy : Type 0 where
  pub max_attempts : ℕ
  pub initial_backoff_ms : ℕ

pub data RetryDecision : Type 0 where
  retry : ℕ → RetryDecision
  dead_letter : RetryDecision

-- `RetryPolicy::new`
abbrev pub new_policy : ℕ → ℕ → RetryPolicy
new_policy max_attempts initial_backoff_ms = record {
  max_attempts = max max_attempts 1;
  initial_backoff_ms = initial_backoff_ms;
}

-- `u64::MAX`, `saturating_pow` of 2 and `saturating_mul`.
abbrev pub u64_max : ℕ
u64_max = 2 ^ 64 - 1

unfoldable pub saturating_pow_two : ℕ → ℕ
saturating_pow_two n = min (2 ^ n) u64_max

unfoldable pub saturating_mul : ℕ → ℕ → ℕ
saturating_mul a b = min (a * b) u64_max

unfoldable pub decide_retry : RetryPolicy → ℕ → RetryDecision
unfolding saturating_pow_two saturating_mul
decide_retry policy attempt =
    if leb policy.max_attempts attempt
    then dead_letter
    else retry (saturating_mul policy.initial_backoff_ms (saturating_pow_two (attempt - 1)))

-- The guard: the set of claimed keys. Its lock recovers from poison.
abbrev pub Guard : Type 0
Guard = List Text

unfoldable pub claim : Text → Guard → Bool × Guard
claim key guard = if contains guard key then (false, guard) else (true, key ∷ guard)

pub data JobOutcome : Type 0 where
  completed duplicate dead_lettered : JobOutcome
  retry_after : ℕ → JobOutcome

pub record DeadLetterEntry : Type 0 where
  pub event_id : Text
  pub idempotency_key : Text
  pub attempt : ℕ
  pub reason : Text

pub record JobLogFields : Type 0 where
  pub job_id : Text
  pub event_id : Text
  pub organization_id : Text
  pub attempt : ℕ
  pub idempotency_key : Text

-- `JobLogFields::from_envelope`
unfoldable pub from_envelope : {Value : Type 0} → EventEnvelope Value → ℕ → JobLogFields
from_envelope envelope attempt = record {
  job_id = envelope.event_type;
  event_id = envelope.event_id;
  organization_id = envelope.organization_id;
  attempt = attempt;
  idempotency_key = envelope.idempotency_key;
}

abbrev pub outcome_of : RetryDecision → JobOutcome
outcome_of (retry backoff_ms) = retry_after backoff_ms
outcome_of dead_letter = dead_lettered

module _ {Value : Type 0} where
  -- `InMemoryDeadLetterSink::record`
  abbrev pub record_entry :
      EventEnvelope Value → ℕ → Text → List DeadLetterEntry → List DeadLetterEntry
  record_entry envelope attempt reason entries =
      entries
      ++ record {
        event_id = envelope.event_id;
        idempotency_key = envelope.idempotency_key;
        attempt = attempt;
        reason = reason;
      }
        ∷ []

  abbrev bury :
      EventEnvelope Value
      → ℕ
      → Text
      → RetryDecision
      → List DeadLetterEntry
      → JobOutcome × List DeadLetterEntry
  bury envelope attempt reason (retry backoff_ms) entries = (retry_after backoff_ms, entries)
  bury envelope attempt reason dead_letter entries =
      (dead_lettered, record_entry envelope attempt reason entries)

-- `JobHandler::handle`, with the world that it acts on; the error is its message.
abbrev pub Handler : Type 0 → Type 0 → Type 0
Handler Value World = EventEnvelope Value → World → Result Text (Unit {0}) × World

abbrev settle :
    {World : Type 0}
    → RetryPolicy
    → ℕ
    → Guard
    → Result Text (Unit {0}) × World
    → JobOutcome × (Guard × World)
settle policy attempt guard (ok _, w) = (completed, (guard, w))
settle policy attempt guard (err _, w) = (outcome_of (decide_retry policy attempt), (guard, w))

module _ {Value World : Type 0} where
  unfoldable pub process_job_once :
      EventEnvelope Value
      → ℕ
      → Handler Value World
      → RetryPolicy
      → Guard
      → World
      → JobOutcome × (Guard × World)
  process_job_once envelope attempt handler policy guard w =
      let (fresh, guard') = claim envelope.idempotency_key guard in
      if fresh then settle policy attempt guard' (handler envelope w) else (duplicate, (guard', w))

  abbrev settle_or_bury :
      EventEnvelope Value
      → RetryPolicy
      → ℕ
      → Guard
      → List DeadLetterEntry
      → Result Text (Unit {0}) × World
      → JobOutcome × (Guard × (World × List DeadLetterEntry))
  settle_or_bury envelope policy attempt guard entries (ok _, w) =
      (completed, (guard, (w, entries)))
  settle_or_bury envelope policy attempt guard entries (err reason, w) =
      let (outcome, entries') =
        bury envelope attempt reason (decide_retry policy attempt) entries in
      (outcome, (guard, (w, entries')))

  -- Over the in-memory sink.
  unfoldable pub process_job_with_dead_letter :
      EventEnvelope Value
      → ℕ
      → Handler Value World
      → RetryPolicy
      → Guard
      → List DeadLetterEntry
      → World
      → JobOutcome × (Guard × (World × List DeadLetterEntry))
  process_job_with_dead_letter envelope attempt handler policy guard entries w =
      let (fresh, guard') = claim envelope.idempotency_key guard in
      if fresh
      then settle_or_bury envelope policy attempt guard' entries (handler envelope w)
      else (duplicate, (guard', (w, entries)))
