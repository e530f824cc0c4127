-- ===== src/Retention/Memory.antt =====
-- src/repositories/retention_memory.rs: the in-memory store of policies and runs.
use opencord_server.Base.{
  ◌&&◌, ◌||◌, Bool, leb, List, [], ◌∷◌, ◌++◌, Option, none, some, Uuid, nat_eq, text_eqb, text_ltb,
  ok, sort_by,
}
use opencord_server.Base.Action.{Action, Mutex, locked}
use opencord_server.Base.Map.{HashMap, get, insert, values}
use opencord_server.Retention.{RetentionPolicy, RetentionRun, RetentionError, store_unavailable}
use opencord_server.Retention.Store.{RetentionStore}

pub record MemoryRetentionState : Type 0 where
  pub policies_by_organization_id : HashMap Uuid RetentionPolicy
  pub runs_by_organization_id : HashMap Uuid (List RetentionRun)

abbrev pub empty_state : MemoryRetentionState
empty_state = record { policies_by_organization_id = []; runs_by_organization_id = [] }

abbrev pub State : Type 0
State = Mutex MemoryRetentionState

unfoldable pub upsert_policy_body :
    RetentionPolicy → Action MemoryRetentionState RetentionError RetentionPolicy
upsert_policy_body policy s = (
  ok policy,
  record s {
    policies_by_organization_id =
        insert s.policies_by_organization_id policy.organization_id policy;
  },
)

unfoldable pub upsert_policy : RetentionPolicy → Action State RetentionError RetentionPolicy
unfolding upsert_policy_body
upsert_policy policy = locked store_unavailable (upsert_policy_body policy)

unfoldable pub get_policy : Uuid → Action State RetentionError (Option RetentionPolicy)
get_policy organization_id =
    locked store_unavailable (λ s. (ok (get s.policies_by_organization_id organization_id), s))

abbrev pub organization_leb : RetentionPolicy → RetentionPolicy → Bool
organization_leb left right = leb left.organization_id right.organization_id

unfoldable pub policies : MemoryRetentionState → List RetentionPolicy
policies s = sort_by organization_leb (values s.policies_by_organization_id)

unfoldable pub list_policies : Action State RetentionError (List RetentionPolicy)
unfolding policies
list_policies = locked store_unavailable (λ s. (ok (policies s), s))

abbrev pub or_default : Option (List RetentionRun) → List RetentionRun
or_default none = []
or_default (some runs) = runs

-- `entry(organization_id).or_default().push(run)`
unfoldable pub record_run_body :
    RetentionRun → Action MemoryRetentionState RetentionError (Unit {0})
record_run_body run s = (
  ok tt,
  record s {
    runs_by_organization_id =
        insert s.runs_by_organization_id run.organization_id
          (or_default (get s.runs_by_organization_id run.organization_id) ++ run ∷ []);
  },
)

unfoldable pub record_run : RetentionRun → Action State RetentionError (Unit {0})
unfolding record_run_body
record_run run = locked store_unavailable (record_run_body run)

unfoldable pub ran_leb : RetentionRun → RetentionRun → Bool
ran_leb left right =
    text_ltb left.ran_at right.ran_at || text_eqb left.ran_at right.ran_at && leb left.id right.id

unfoldable pub list_runs_for_organization : Uuid → Action State RetentionError (List RetentionRun)
unfolding ran_leb
list_runs_for_organization organization_id =
    locked store_unavailable
      (λ s. (ok (sort_by ran_leb (or_default (get s.runs_by_organization_id organization_id))), s))

abbrev pub memory_store : RetentionStore
memory_store = record {
  State = State;
  upsert_policy = upsert_policy;
  get_policy = get_policy;
  list_policies = list_policies;
  record_run = record_run;
  list_runs_for_organization = list_runs_for_organization;
}
