-- ===== src/Permission/Store.antt =====
-- src/domain/permission.rs: the trait `PermissionStore`, as operations on a state of its own.
use opencord_server.Base.{Uuid, List, Option}
use opencord_server.Base.Action.{Action}
use opencord_server.Permission.{
  Role, RoleAssignment, AssignedRole, ChannelPermissionOverride, PermissionError,
}

pub record PermissionStore : Type 1 where
  pub State : Type 0
  pub create_role : Role → Action State PermissionError (Unit {0})
  pub get_role : Uuid → Uuid → Action State PermissionError (Option Role)
  pub list_roles_for_space : Uuid → Action State PermissionError (List Role)
  pub assign_role : RoleAssignment → Action State PermissionError (Unit {0})
  pub assigned_roles_for_user : Uuid → Uuid → Action State PermissionError (List AssignedRole)
  pub upsert_channel_override : ChannelPermissionOverride → Action State PermissionError (Unit {0})
  pub channel_overrides_for_user :
      Uuid → Uuid → List Uuid → Action State PermissionError (List ChannelPermissionOverride)
