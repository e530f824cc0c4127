-- ===== src/Permission/Service.antt =====
-- src/domain/permission.rs: `PermissionService`, over any store.
use Prim.Native.Nat.{bit_or}
use mathlib.Core.List.{foldl}
use opencord_server.Base.{ℕ, Bool, true, if◌then◌else◌, List, map, Option, none, some, Text, Uuid}
use opencord_server.Base.Int.{ℤ, pos, max_ℤ}
use opencord_server.Base.Action.{Action, ◌>>=◌, ◌>>◌, lift, pure, fail}
use opencord_server.Permission.{
  Permission, Role, RoleAssignment, AssignedRole, PermissionTargetKind, ChannelPermissionOverride,
  PermissionError, forbidden, role_not_found, has_bit,
}
use opencord_server.Permission.Evaluate.{
  is_admin_role, builtin_permissions_for_role, apply_channel_overrides,
}
use opencord_server.Permission.Input.{normalize_role_name, normalize_color, parse_permission_list}
use opencord_server.Permission.Store.{PermissionStore}

-- `position.unwrap_or(0).max(0)`
abbrev pub role_position : Option ℤ → ℤ
role_position none = pos 0
role_position (some p) = max_ℤ p (pos 0)

-- `|` of the roles' bitsets over a start value.
unfoldable pub with_roles : ℕ → List AssignedRole → ℕ
with_roles start roles =
    foldl (λ bitset (r : AssignedRole). bit_or bitset r.permissions_bitset) start roles

abbrev pub role_ids : List AssignedRole → List Uuid
role_ids = map (λ (r : AssignedRole). r.id)

module _ (store : PermissionStore) where
  open store use {State}

  -- `id` is the fresh `ids::new_uuid_v7()`.
  unfoldable pub create_role :
      Uuid
      → Uuid
      → Uuid
      → Text
      → Option Text
      → Option ℤ
      → List Text
      → Action State PermissionError Role
  create_role id organization_id space_id name color position permissions = do
    name' ← lift (normalize_role_name name)
    color' ← lift (normalize_color color)
    bitset ← lift (parse_permission_list permissions)
    let role : Role = record {
      id = id;
      organization_id = organization_id;
      space_id = space_id;
      name = name';
      color = color';
      position = role_position position;
      permissions_bitset = bitset;
    }
    store.create_role role
    pure role

  unfoldable pub assign_role :
      Uuid → Uuid → Uuid → Uuid → Action State PermissionError RoleAssignment
  assign_role space_id role_id user_id assigned_by_user_id = do
    found ← store.get_role space_id role_id
    elim found [
      | none ↦ fail role_not_found
      | some _ ↦ do
        let a : RoleAssignment = record {
          space_id = space_id;
          role_id = role_id;
          user_id = user_id;
          assigned_by_user_id = assigned_by_user_id;
        }
        store.assign_role a
        pure a
    ]

  unfoldable pub list_roles_for_space : Uuid → Action State PermissionError (List Role)
  list_roles_for_space space_id = store.list_roles_for_space space_id

  unfoldable pub set_channel_override :
      Uuid
      → PermissionTargetKind
      → Uuid
      → List Text
      → List Text
      → Action State PermissionError ChannelPermissionOverride
  set_channel_override channel_id target_kind target_id allow deny = do
    allow_bitset ← lift (parse_permission_list allow)
    deny_bitset ← lift (parse_permission_list deny)
    let o : ChannelPermissionOverride = record {
      channel_id = channel_id;
      target_kind = target_kind;
      target_id = target_id;
      allow_bitset = allow_bitset;
      deny_bitset = deny_bitset;
    }
    store.upsert_channel_override o
    pure o

  -- `role` is `space.role`, the user's role in the space.
  unfoldable pub can_in_space : Uuid → Uuid → Text → Permission → Action State PermissionError Bool
  can_in_space user_id space_id role permission = if is_admin_role role then pure true else do
    assigned ← store.assigned_roles_for_user space_id user_id
    pure (has_bit (with_roles (builtin_permissions_for_role role) assigned) permission)

  unfoldable pub can_in_channel :
      Uuid → Uuid → Text → Uuid → Permission → Action State PermissionError Bool
  can_in_channel user_id space_id role channel_id permission =
      if is_admin_role role then pure true else do
        assigned ← store.assigned_roles_for_user space_id user_id
        let effective = with_roles (builtin_permissions_for_role role) assigned
        overrides ← store.channel_overrides_for_user channel_id user_id (role_ids assigned)
        pure (
            has_bit (apply_channel_overrides effective user_id (role_ids assigned) overrides)
              permission)

  abbrev pub require : Action State PermissionError Bool → Action State PermissionError (Unit {0})
  require check = do allowed ← check; if allowed then pure tt else fail forbidden

  unfoldable pub require_space :
      Uuid → Uuid → Text → Permission → Action State PermissionError (Unit {0})
  unfolding can_in_space
  require_space user_id space_id role permission =
      require (can_in_space user_id space_id role permission)

  unfoldable pub require_channel :
      Uuid → Uuid → Text → Uuid → Permission → Action State PermissionError (Unit {0})
  unfolding can_in_channel
  require_channel user_id space_id role channel_id permission =
      require (can_in_channel user_id space_id role channel_id permission)
