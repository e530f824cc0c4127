-- ===== src/Audit.antt =====
-- src/domain/audit.rs: audit events, and the checks on their labels and on the span of an export.
-- Children: the store, its in-memory implementation, and the service.
pub mod Store
pub mod Memory
pub mod Purge
pub mod Service
use opencord_server.Base.{
  ℕ, ◌||◌, ltb, if◌then◌else◌, List, none, some, Text, Uuid, text, len, trim, is_empty, Result, ok,
  err,
}
use opencord_server.Base.Json.{Value}
use opencord_server.Base.Time.{Chrono}

pub record AuditEvent : Type 0 where
  pub id : Uuid
  pub organization_id : Uuid
  pub space_id : Uuid
  pub actor_user_id : Uuid
  pub action : Text
  pub target_type : Text
  pub target_id : Uuid
  pub metadata : Value
  pub created_at : Text

pub record NewAuditEvent : Type 0 where
  pub organization_id : Uuid
  pub space_id : Uuid
  pub actor_user_id : Uuid
  pub action : Text
  pub target_type : Text
  pub target_id : Uuid
  pub metadata : Value

pub record AuditExport : Type 0 where
  pub organization_id : Uuid
  pub format : Text
  pub from : Text
  pub to : Text
  pub audit_events : List AuditEvent

pub data AuditError : Type 0 where
  invalid_input : Text → AuditError
  store_unavailable : AuditError

unfoldable pub status_code : AuditError → ℕ
status_code (invalid_input _) = 400
status_code store_unavailable = 500

unfoldable pub error_code : AuditError → Text
error_code (invalid_input _) = text "invalid_request"
error_code store_unavailable = text "audit_store_unavailable"

unfoldable pub normalize_label : Text → Text → Result AuditError Text
normalize_label raw message =
    let value = trim raw in
    if is_empty value || ltb 120 (len value) then err (invalid_input message) else ok value

unfoldable pub normalize_rfc3339 :
    (chrono : Chrono) → Text → Text → Result AuditError chrono.DateTime
normalize_rfc3339 chrono value message = elim (chrono.parse_from_rfc3339 (trim value)) [
  | none ↦ err (invalid_input message)
  | some time ↦ ok time
]
