-- ===== src/Retention/Store.antt =====
-- src/domain/retention.rs: the trait `RetentionStore`, as operations on a state of its own.
use opencord_server.Base.{List, Option, Uuid}
use opencord_server.Base.Action.{Action}
use opencord_server.Retention.{RetentionPolicy, RetentionRun, RetentionError}

pub record RetentionStore : Type 1 where
  pub State : Type 0
  pub upsert_policy : RetentionPolicy → Action State RetentionError RetentionPolicy
  pub get_policy : Uuid → Action State RetentionError (Option RetentionPolicy)
  pub list_policies : Action State RetentionError (List RetentionPolicy)
  pub record_run : RetentionRun → Action State RetentionError (Unit {0})
  pub list_runs_for_organization : Uuid → Action State RetentionError (List RetentionRun)
