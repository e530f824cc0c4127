-- ===== src/Retention.antt =====
-- src/domain/retention.rs: retention policies and runs, and the checks on them.
-- Children: the store, its in-memory implementation, the service, the worker, and what a run does.
pub mod Store
pub mod Memory
pub mod Service
pub mod Worker
pub mod Effect
pub mod Turns
pub mod Left
pub mod Runs
pub mod Ready
mod Tests
use opencord_server.Base.{
  ℕ, ◌&&◌, Bool, not, if◌then◌else◌, Option, none, some, Text, Uuid, text, trim, text_eqb, Result,
  ok, err,
}
use opencord_server.Base.Fallible.{◌>>=◌, ◌>>◌}
use opencord_server.Base.Int.{ℤ, pos, ltb_ℤ}
use opencord_server.Base.Time.{Chrono}
use opencord_server.Message.{MessageError}
use opencord_server.Attachment.{AttachmentError}
use opencord_server.Audit.{AuditError}

pub record RetentionPolicy : Type 0 where
  pub organization_id : Uuid
  pub messages_retain_days : Option ℤ
  pub files_retain_days : Option ℤ
  pub audit_logs_retain_days : Option ℤ
  pub deleted_message_purge_days : Option ℤ

pub record RetentionRun : Type 0 where
  pub id : Uuid
  pub organization_id : Uuid
  pub dry_run : Bool
  pub messages_purged : ℕ
  pub files_purged : ℕ
  pub audit_events_purged : ℕ
  pub ran_at : Text

pub record RetentionRunSummary : Type 0 where
  pub organizations_scanned : ℕ
  pub messages_purged : ℕ
  pub files_purged : ℕ
  pub audit_events_purged : ℕ
  pub dry_run : Bool

pub data RetentionError : Type 0 where
  invalid_input : Text → RetentionError
  not_found store_unavailable : RetentionError

unfoldable pub status_code : RetentionError → ℕ
status_code (invalid_input _) = 400
status_code not_found = 404
status_code store_unavailable = 500

unfoldable pub error_code : RetentionError → Text
error_code (invalid_input _) = text "invalid_request"
error_code not_found = text "retention_policy_not_found"
error_code store_unavailable = text "retention_store_unavailable"

-- The three `From` implementations.
unfoldable pub from_message_error : MessageError → RetentionError
from_message_error (MessageError.invalid_input message) = invalid_input message
from_message_error MessageError.not_found = store_unavailable
from_message_error MessageError.store_unavailable = store_unavailable

unfoldable pub from_attachment_error : AttachmentError → RetentionError
from_attachment_error (AttachmentError.invalid_input message) = invalid_input message
from_attachment_error AttachmentError.not_found = store_unavailable
from_attachment_error AttachmentError.store_unavailable = store_unavailable

unfoldable pub from_audit_error : AuditError → RetentionError
from_audit_error (AuditError.invalid_input message) = invalid_input message
from_audit_error AuditError.store_unavailable = store_unavailable

-- The match on the name of the field.
unfoldable pub days_message : Text → Text
days_message field_name =
    if text_eqb field_name (text "messages_retain_days")
    then text "messages_retain_days must be between 1 and 3650"
    else if text_eqb field_name (text "files_retain_days")
    then text "files_retain_days must be between 1 and 3650"
    else if text_eqb field_name (text "audit_logs_retain_days")
    then text "audit_logs_retain_days must be between 1 and 3650"
    else if text_eqb field_name (text "deleted_message_purge_days")
    then text "deleted_message_purge_days must be between 1 and 3650"
    else text "retention days must be between 1 and 3650"

unfoldable pub normalize_days : Option ℤ → Text → Result RetentionError (Option ℤ)
normalize_days none field_name = ok none
normalize_days (some days) field_name =
    if not (ltb_ℤ days (pos 1)) && not (ltb_ℤ (pos 3650) days)
    then ok (some days)
    else err (invalid_input (days_message field_name))

unfoldable pub normalize_policy : RetentionPolicy → Result RetentionError RetentionPolicy
normalize_policy policy = do
  messages ← normalize_days policy.messages_retain_days (text "messages_retain_days")
  files ← normalize_days policy.files_retain_days (text "files_retain_days")
  audit ← normalize_days policy.audit_logs_retain_days (text "audit_logs_retain_days")
  deleted ← normalize_days policy.deleted_message_purge_days (text "deleted_message_purge_days")
  ok (record {
    organization_id = policy.organization_id;
    messages_retain_days = messages;
    files_retain_days = files;
    audit_logs_retain_days = audit;
    deleted_message_purge_days = deleted;
  })

module _ (chrono : Chrono) where
  -- `days.map(…)`
  unfoldable pub cutoff : chrono.DateTime → Option ℤ → Option Text
  cutoff now none = none
  cutoff now (some days) = some (chrono.to_rfc3339 (chrono.minus_days now days))

  unfoldable pub parse_time : Text → Text → Result RetentionError chrono.DateTime
  parse_time value message = elim (chrono.parse_from_rfc3339 (trim value)) [
    | none ↦ err (invalid_input message)
    | some time ↦ ok time
  ]
