-- ===== src/Retention/Worker.antt =====
-- src/domain/retention.rs: the worker that purges what the policies no longer retain. Its state is that
-- of its four stores.
use opencord_server.Base.{ℕ, ◌+◌, Bool, List, [], ◌∷◌, length, Text, Uuid, text, map_err}
use opencord_server.Base.Time.{Chrono}
use opencord_server.Base.Action.{Action, ◌>>=◌, ◌>>◌, lift, pure}
use opencord_server.Message.{MessageError}
use opencord_server.Message.Store.{MessageStore}
use opencord_server.Attachment.{AttachmentError}
use opencord_server.Attachment.Store.{AttachmentStore}
use opencord_server.Audit.{AuditError}
use opencord_server.Audit.Store.{AuditStore}
use opencord_server.Retention.{
  RetentionPolicy, RetentionRunSummary, RetentionError, from_message_error, from_attachment_error,
  from_audit_error, normalize_policy, cutoff, parse_time,
}
use opencord_server.Retention.Store.{RetentionStore}

pub record RetentionWorker : Type 1 where
  pub retention : RetentionStore
  pub messages : MessageStore
  pub attachments : AttachmentStore
  pub audit : AuditStore

module _ (worker : RetentionWorker) where
  abbrev pub Stores : Type 0
  Stores =
      worker.retention.State × worker.messages.State × worker.attachments.State × worker.audit.State

  abbrev pub on_retention :
      {A : Type 0} → Action worker.retention.State RetentionError A → Action Stores RetentionError A
  on_retention action (r, m, a, u) = let (x, r') = action r in (x, (r', m, a, u))

  abbrev pub on_messages :
      {A : Type 0} → Action worker.messages.State MessageError A → Action Stores RetentionError A
  on_messages action (r, m, a, u) =
      let (x, m') = action m in (map_err from_message_error x, (r, m', a, u))

  abbrev pub on_attachments :
      {A : Type 0}
      → Action worker.attachments.State AttachmentError A
      → Action Stores RetentionError A
  on_attachments action (r, m, a, u) =
      let (x, a') = action a in (map_err from_attachment_error x, (r, m, a', u))

  abbrev pub on_audit :
      {A : Type 0} → Action worker.audit.State AuditError A → Action Stores RetentionError A
  on_audit action (r, m, a, u) =
      let (x, u') = action u in (map_err from_audit_error x, (r, m, a, u'))

  module _ (chrono : Chrono) where
    -- One turn of the loop: what was purged. `id` is the fresh id of the run.
    unfoldable pub run_policy :
        chrono.DateTime → Bool → Uuid → RetentionPolicy → Action Stores RetentionError (ℕ × ℕ × ℕ)
    run_policy now dry_run id raw = do
      policy ← lift (normalize_policy raw)
      messages_purged ← on_messages (
          worker.messages.purge_for_retention policy.organization_id
            (cutoff chrono now policy.messages_retain_days)
            (cutoff chrono now policy.deleted_message_purge_days) dry_run)
      files_purged ← on_attachments (
          worker.attachments.purge_for_retention policy.organization_id
            (cutoff chrono now policy.files_retain_days) dry_run)
      audit_events_purged ← on_audit (
          worker.audit.purge_for_retention policy.organization_id
            (cutoff chrono now policy.audit_logs_retain_days) dry_run)
      on_retention (
          worker.retention.record_run (record {
            id = id;
            organization_id = policy.organization_id;
            dry_run = dry_run;
            messages_purged = messages_purged;
            files_purged = files_purged;
            audit_events_purged = audit_events_purged;
            ran_at = chrono.to_rfc3339 now;
          }))
      pure (messages_purged, files_purged, audit_events_purged)

    abbrev pub add_up : RetentionRunSummary → ℕ × ℕ × ℕ → RetentionRunSummary
    add_up summary (messages_purged, files_purged, audit_events_purged) = record summary {
      messages_purged = summary.messages_purged + messages_purged;
      files_purged = summary.files_purged + files_purged;
      audit_events_purged = summary.audit_events_purged + audit_events_purged;
    }

    -- The loop; `fresh n` is the id of the n-th run.
    unfoldable pub run_policies :
        (ℕ → Uuid)
        → chrono.DateTime
        → Bool
        → RetentionRunSummary
        → List RetentionPolicy
        → Action Stores RetentionError RetentionRunSummary
    unfolding run_policy
    run_policies fresh now dry_run summary [] = pure summary
    run_policies fresh now dry_run summary (policy ∷ rest) = do
      purged ← run_policy now dry_run (fresh (length rest)) policy
      run_policies fresh now dry_run (add_up summary purged) rest

    unfoldable pub run_once_at :
        (ℕ → Uuid) → Text → Bool → Action Stores RetentionError RetentionRunSummary
    unfolding run_policies
    run_once_at fresh raw dry_run = do
      now ← lift (parse_time chrono raw (text "retention run timestamp must be RFC3339"))
      policies ← on_retention worker.retention.list_policies
      run_policies fresh now dry_run
          (record {
            organizations_scanned = length policies;
            messages_purged = 0;
            files_purged = 0;
            audit_events_purged = 0;
            dry_run = dry_run;
          })
          policies
