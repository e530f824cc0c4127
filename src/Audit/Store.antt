-- ===== src/Audit/Store.antt =====
-- src/domain/audit.rs: the trait `AuditStore`, as operations on a state of its own.
use opencord_server.Base.{ℕ, Bool, List, Option, Text, Uuid}
use opencord_server.Base.Action.{Action}
use opencord_server.Audit.{AuditEvent, AuditError}

pub record AuditStore : Type 1 where
  pub State : Type 0
  pub create_event : AuditEvent → Action State AuditError (Unit {0})
  pub list_for_space : Uuid → Action State AuditError (List AuditEvent)
  pub list_for_organization_between : Uuid → Text → Text → Action State AuditError (List AuditEvent)
  pub purge_for_retention : Uuid → Option Text → Bool → Action State AuditError ℕ
