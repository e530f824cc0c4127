-- ===== src/Retention/Service.antt =====
-- src/domain/retention.rs: `RetentionService`, over any store.
use opencord_server.Base.{List, Uuid, ok_or}
use opencord_server.Base.Action.{Action, ◌>>=◌, lift}
use opencord_server.Retention.{
  RetentionPolicy, RetentionRun, RetentionError, not_found, normalize_policy,
}
use opencord_server.Retention.Store.{RetentionStore}

module _ (store : RetentionStore) where
  open store use {State}

  unfoldable pub upsert_policy : RetentionPolicy → Action State RetentionError RetentionPolicy
  upsert_policy raw = do policy ← lift (normalize_policy raw); store.upsert_policy policy

  unfoldable pub get_policy : Uuid → Action State RetentionError RetentionPolicy
  get_policy organization_id = do
    found ← store.get_policy organization_id
    lift (ok_or not_found found)

  unfoldable pub list_runs_for_organization : Uuid → Action State RetentionError (List RetentionRun)
  list_runs_for_organization organization_id = store.list_runs_for_organization organization_id
