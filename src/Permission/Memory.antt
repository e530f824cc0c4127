-- ===== src/Permission/Memory.antt =====
-- src/repositories/permission_memory.rs: the in-memory permission store.
use opencord_server.Base.{
  ◌&&◌, ◌||◌, Bool, nat_eqb, if◌then◌else◌, List, [], Option, none, some, Text, Uuid, filter,
  filter_map, contains, nat_eq, text_eq, pair_eq, ok, err, to_ascii_lowercase, sort_by, text_leb,
}
use opencord_server.Base.Int.{ltb_ℤ, eqb_ℤ}
use opencord_server.Base.Action.{Action, Mutex, locked}
use opencord_server.Base.Map.{HashMap, get, insert, contains_key, values}
use opencord_server.Permission.{
  Role, RoleAssignment, AssignedRole, ChannelPermissionOverride, PermissionError, store_unavailable,
  role_already_exists, role_not_found, target_kind_str,
}
use opencord_server.Permission.Store.{PermissionStore}

pub record MemoryPermissionState : Type 0 where
  pub roles_by_id : HashMap Uuid Role
  pub role_id_by_space_name : HashMap (Uuid × Text) Uuid
  pub assignments_by_role_user : HashMap (Uuid × Uuid) RoleAssignment
  pub overrides_by_target : HashMap (Uuid × (Text × Uuid)) ChannelPermissionOverride

abbrev pub empty_state : MemoryPermissionState
empty_state = record {
  roles_by_id = [];
  role_id_by_space_name = [];
  assignments_by_role_user = [];
  overrides_by_target = [];
}

abbrev pub State : Type 0
State = Mutex MemoryPermissionState

abbrev pub name_key : Role → Uuid × Text
name_key role = (role.space_id, to_ascii_lowercase role.name)

abbrev pub target_key : ChannelPermissionOverride → Uuid × (Text × Uuid)
target_key o = (o.channel_id, (target_kind_str o.target_kind, o.target_id))

unfoldable pub create_role_body : Role → Action MemoryPermissionState PermissionError (Unit {0})
create_role_body role s =
    if contains_key s.role_id_by_space_name (name_key role) then (err role_already_exists, s) else (
      ok tt,
      record s {
        role_id_by_space_name = insert s.role_id_by_space_name (name_key role) role.id;
        roles_by_id = insert s.roles_by_id role.id role;
      },
    )

unfoldable pub create_role : Role → Action State PermissionError (Unit {0})
unfolding create_role_body
create_role role = locked store_unavailable (create_role_body role)

-- `Option::filter` on the role's space.
abbrev in_space : Uuid → Option Role → Option Role
in_space space_id none = none
in_space space_id (some role) = if nat_eqb role.space_id space_id then some role else none

unfoldable pub get_role : Uuid → Uuid → Action State PermissionError (Option Role)
get_role space_id role_id =
    locked store_unavailable (λ s. (ok (in_space space_id (get s.roles_by_id role_id)), s))

-- By position, then by name.
abbrev role_leb : Role → Role → Bool
role_leb a b = ltb_ℤ a.position b.position || eqb_ℤ a.position b.position && text_leb a.name b.name

unfoldable pub list_roles_for_space : Uuid → Action State PermissionError (List Role)
list_roles_for_space space_id = locked store_unavailable (λ s.
    (ok (sort_by role_leb (filter (λ r. nat_eqb r.space_id space_id) (values s.roles_by_id))), s))

unfoldable pub assign_role_body :
    RoleAssignment → Action MemoryPermissionState PermissionError (Unit {0})
assign_role_body a s =
    if contains_key s.roles_by_id a.role_id
    then (
      ok tt,
      record s {
        assignments_by_role_user = insert s.assignments_by_role_user (a.role_id, a.user_id) a;
      },
    )
    else (err role_not_found, s)

unfoldable pub assign_role : RoleAssignment → Action State PermissionError (Unit {0})
unfolding assign_role_body
assign_role a = locked store_unavailable (assign_role_body a)

abbrev pub assigned_role : MemoryPermissionState → RoleAssignment → Option AssignedRole
assigned_role s a = elim (get s.roles_by_id a.role_id) [
  | none ↦ none
  | some role ↦ some (record { id = role.id; permissions_bitset = role.permissions_bitset })
]

unfoldable pub roles_of : Uuid → Uuid → MemoryPermissionState → List AssignedRole
roles_of space_id user_id s = filter_map (assigned_role s) (
    filter (λ a. nat_eqb a.space_id space_id && nat_eqb a.user_id user_id)
      (values s.assignments_by_role_user))

unfoldable pub assigned_roles_for_user :
    Uuid → Uuid → Action State PermissionError (List AssignedRole)
unfolding roles_of
assigned_roles_for_user space_id user_id =
    locked store_unavailable (λ s. (ok (roles_of space_id user_id s), s))

unfoldable pub upsert_channel_override :
    ChannelPermissionOverride → Action State PermissionError (Unit {0})
upsert_channel_override o =
    locked store_unavailable (λ s.
      (ok tt, record s { overrides_by_target = insert s.overrides_by_target (target_key o) o }))

unfoldable pub overrides_of :
    Uuid → Uuid → List Uuid → MemoryPermissionState → List ChannelPermissionOverride
overrides_of channel_id user_id role_ids s =
    filter (λ o. nat_eqb o.target_id user_id || contains role_ids o.target_id)
      (filter (λ o. nat_eqb o.channel_id channel_id) (values s.overrides_by_target))

unfoldable pub channel_overrides_for_user :
    Uuid → Uuid → List Uuid → Action State PermissionError (List ChannelPermissionOverride)
unfolding overrides_of
channel_overrides_for_user channel_id user_id role_ids =
    locked store_unavailable (λ s. (ok (overrides_of channel_id user_id role_ids s), s))

abbrev pub memory_store : PermissionStore
memory_store = record {
  State = State;
  create_role = create_role;
  get_role = get_role;
  list_roles_for_space = list_roles_for_space;
  assign_role = assign_role;
  assigned_roles_for_user = assigned_roles_for_user;
  upsert_channel_override = upsert_channel_override;
  channel_overrides_for_user = channel_overrides_for_user;
}
