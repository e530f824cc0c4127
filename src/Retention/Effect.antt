-- ===== src/Retention/Effect.antt =====
-- src/domain/retention.rs: what one turn of `run_once_at` does to the four in-memory stores.
use opencord_server.Base.{ℕ, Bool, List, length, Uuid, Result, ok, ◌≡◌, refl}
use opencord_server.Base.Time.{Chrono}
use opencord_server.Base.Action.{healthy}
use opencord_server.Message.Memory as Messages
use opencord_server.Message.Memory.{MemoryMessageState}
use opencord_server.Message.{Message, MessageError}
use opencord_server.Attachment.{Attachment, AttachmentError}
use opencord_server.Audit.{AuditEvent}
use opencord_server.Base.Map.{HashMap}
use opencord_server.Attachment.Memory as Attachments
use opencord_server.Attachment.Memory.{MemoryAttachmentState}
use opencord_server.Audit.Memory as Audits
use opencord_server.Audit.Memory.{MemoryAuditState}
use opencord_server.Retention.{RetentionPolicy, RetentionRun, normalize_policy, cutoff}
use opencord_server.Retention.Memory as Policies
use opencord_server.Retention.Memory.{MemoryRetentionState}
use opencord_server.Retention.Worker
use opencord_server.Retention.Worker.{RetentionWorker, Stores}

abbrev pub memory_worker : RetentionWorker
memory_worker = record {
  retention = Policies.memory_store;
  messages = Messages.memory_store;
  attachments = Attachments.memory_store;
  audit = Audits.memory_store;
}

-- What the four locks guard.
pub record Contents : Type 0 where
  pub policies : MemoryRetentionState
  pub messages : MemoryMessageState
  pub attachments : MemoryAttachmentState
  pub audit : MemoryAuditState

abbrev pub unlocked : Contents → Stores memory_worker
unlocked c = (healthy c.policies, healthy c.messages, healthy c.attachments, healthy c.audit)

abbrev pub IsValid : RetentionPolicy → Type 0
IsValid p = normalize_policy p ≡ ok p

module _ (chrono : Chrono) (now : chrono.DateTime) where
  abbrev pub purge_messages :
      Bool → RetentionPolicy → MemoryMessageState → Result MessageError ℕ × MemoryMessageState
  purge_messages dry_run p m =
      Messages.purge_body p.organization_id (cutoff chrono now p.messages_retain_days)
        (cutoff chrono now p.deleted_message_purge_days) dry_run m

  abbrev pub purge_files :
      Bool
      → RetentionPolicy
      → MemoryAttachmentState
      → Result AttachmentError ℕ × MemoryAttachmentState
  purge_files dry_run p a =
      Attachments.purge_body p.organization_id (cutoff chrono now p.files_retain_days) dry_run a

  abbrev pub purge_events :
      Bool → RetentionPolicy → MemoryAuditState → ℕ × HashMap Uuid (List AuditEvent)
  purge_events dry_run p u =
      Audits.purge_lists p.organization_id (cutoff chrono now p.audit_logs_retain_days) dry_run
        u.events_by_space_id

  abbrev pub is_expired_message : RetentionPolicy → Message → Bool
  is_expired_message p m =
      Messages.is_expired p.organization_id (cutoff chrono now p.messages_retain_days)
        (cutoff chrono now p.deleted_message_purge_days) m

  abbrev pub is_expired_file : RetentionPolicy → Attachment → Bool
  is_expired_file p a =
      Attachments.is_expired p.organization_id (cutoff chrono now p.files_retain_days) a

  abbrev pub expired_messages : RetentionPolicy → MemoryMessageState → List Uuid
  expired_messages p m =
      Messages.expired_ids p.organization_id (cutoff chrono now p.messages_retain_days)
        (cutoff chrono now p.deleted_message_purge_days) m

  abbrev pub expired_files : RetentionPolicy → MemoryAttachmentState → List Uuid
  expired_files p a =
      Attachments.expired_ids p.organization_id (cutoff chrono now p.files_retain_days) a

  abbrev pub messages_count : RetentionPolicy → MemoryMessageState → ℕ
  messages_count p m = length (expired_messages p m)

  abbrev pub files_count : RetentionPolicy → MemoryAttachmentState → ℕ
  files_count p a = length (expired_files p a)

  abbrev pub recorded : Bool → Uuid → RetentionPolicy → Contents → RetentionRun
  recorded dry_run id p c = record {
    id = id;
    organization_id = p.organization_id;
    dry_run = dry_run;
    messages_purged = messages_count p c.messages;
    files_purged = files_count p c.attachments;
    audit_events_purged = (purge_events dry_run p c.audit).0;
    ran_at = chrono.to_rfc3339 now;
  }

  -- The stores after one turn.
  abbrev pub turn : Bool → Uuid → RetentionPolicy → Contents → Contents
  turn dry_run id p c = record {
    policies = (Policies.record_run_body (recorded dry_run id p c) c.policies).1;
    messages = (purge_messages dry_run p c.messages).1;
    attachments = (purge_files dry_run p c.attachments).1;
    audit = record { events_by_space_id = (purge_events dry_run p c.audit).1 };
  }

  pub run_policy-turn :
      (dry_run : Bool) (id : Uuid) (p : RetentionPolicy) (c : Contents)
      → IsValid p
      → Worker.run_policy memory_worker chrono now dry_run id p (unlocked c) ≡ (
        ok (
          messages_count p c.messages,
          files_count p c.attachments,
          (purge_events dry_run p c.audit).0,
        ),
        unlocked (turn dry_run id p c),
      )
  unfolding Worker.run_policy Messages.purge_for_retention Messages.purge_body
      Attachments.purge_for_retention Attachments.purge_body Audits.purge_for_retention
      Audits.purge_body Policies.record_run
  run_policy-turn dry_run id p c valid = rw valid refl
