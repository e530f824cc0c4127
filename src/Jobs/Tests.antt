-- ===== src/Jobs/Tests.antt =====
-- Tests of the jobs component, and its theorems at concrete inputs.
use opencord_server.Base.{
  ℕ, ◌+◌, if◌then◌else◌, [], ◌∷◌, none, text, text_eq, text_eqb, contains, err, ◌≡◌, refl,
}
use opencord_server.Events.{EventEnvelope}
use opencord_server.Jobs.{
  new_policy, retry, dead_letter, decide_retry, claim, duplicate, retry_after, Handler,
  process_job_once, process_job_with_dead_letter, record_entry,
}
use opencord_server.Jobs.Once.{
  is_dead, reason_of, process_job_with_dead_letter_lem, deliver, calls, delivered, calls-deliver,
}

abbrev envelope : EventEnvelope ℕ
envelope = record {
  event_id = text "evt_1";
  topic = text "opencord.events.realtime.v1";
  event_type = text "notification.deliver";
  schema_version = 1;
  organization_id = text "o";
  partition_key = text "o";
  occurred_at = 0;
  traceparent = none;
  idempotency_key = text "notification.deliver:n";
  payload = 0;
}

abbrev failing : Handler ℕ ℕ
failing _ calls = (err (text "down"), calls + 1)

-- The source's own tests: backoffs of a policy, and a failed job that comes again is a duplicate.
policy_backoffs :
    (decide_retry (new_policy 3 250) 1 ≡ retry 250)
    × (decide_retry (new_policy 3 250) 2 ≡ retry 500)
    × (decide_retry (new_policy 3 250) 3 ≡ dead_letter)
unfolding decide_retry
policy_backoffs = (refl, refl, refl)

failed_then_duplicate :
    let first = process_job_once envelope 1 failing (new_policy 2 100) [] 0 in
    (first.0 ≡ retry_after 100)
    × ((process_job_once envelope 2 failing (new_policy 2 100) first.1.0 first.1.1).0 ≡ duplicate)
unfolding process_job_once claim decide_retry text_eqb
failed_then_duplicate = (refl, refl)

process_job_with_dead_letter_lem_example :
    let plain = process_job_once envelope 2 failing (new_policy 2 100) [] 0 in
    process_job_with_dead_letter envelope 2 failing (new_policy 2 100) [] [] 0 ≡ (
      plain.0,
      (
        plain.1.0,
        (
          plain.1.1,
          if is_dead plain.0
              then record_entry envelope 2 (reason_of (failing envelope 0).0) []
              else [],
        ),
      ),
    )
process_job_with_dead_letter_lem_example =
    process_job_with_dead_letter_lem envelope 2 failing (new_policy 2 100) [] [] 0

calls-deliver_example :
    calls
      (text "notification.deliver:n")
      (deliver
        (λ _ _. err (text "down"))
        (new_policy 2 100)
        ((envelope, 1) ∷ (envelope, 2) ∷ [])
        []
        []).1
    ≡ calls {Value = ℕ} (text "notification.deliver:n") []
      + (if contains [] (text "notification.deliver:n")
          then 0
          else if delivered (text "notification.deliver:n") ((envelope, 1) ∷ (envelope, 2) ∷ [])
          then 1
          else 0)
calls-deliver_example =
    calls-deliver (λ _ _. err (text "down")) (new_policy 2 100) (text "notification.deliver:n")
      ((envelope, 1) ∷ (envelope, 2) ∷ []) [] []
