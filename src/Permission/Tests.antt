-- ===== src/Permission/Tests.antt =====
-- Tests of the permission component, and its theorems at concrete inputs.
use opencord_server.Base.{
  ℕ, true, false, List, [], ◌∷◌, none, some, Text, text, trim, text_eqb, ascii_upper, is_whitespace,
  nat_eq, ok, err, ◌≡◌, refl, arith, ◌↔◌,
}
use opencord_server.Base.Int.{pos}
use opencord_server.Base.Action.{healthy}
use opencord_server.Base.Map.{get}
use opencord_server.Base.Bits.{bit_not}
use opencord_server.Permission.{
  Role, view_channel, send_messages, role_already_exists, parse, has_bit, permission_names,
  AssignedRole, ChannelPermissionOverride, role_target, member_target,
}
use opencord_server.Permission.Evaluate.{
  apply_channel_overrides, collect_masks, absorb, apply_masks, is_admin_role,
  builtin_permissions_for_role,
}
use opencord_server.Permission.Input.{parse_permission_list}
use opencord_server.Permission.Memory
use opencord_server.Permission.Memory.{
  MemoryPermissionState, memory_store, empty_state, create_role, roles_of, overrides_of, name_key,
}
use opencord_server.Permission.Service.{with_roles, can_in_channel, set_channel_override, role_ids}
use opencord_server.Permission.Overrides.{granted, apply_channel_overrides-granted}
use opencord_server.Permission.Names.{parse_permission_list-permission_names}
use opencord_server.Permission.Access.{
  holds, can_in_channel-memory, can_in_channel-set_channel_override_denied,
}
use opencord_server.Base.Member.{◌∈◌}
use opencord_server.Permission.Assigned.{IsAssigned, Applies}
use opencord_server.Permission.Roles.{
  IsConsistent, empty_state-IsConsistent, create_role-IsConsistent, create_role-refused_iff,
}

abbrev moderator : Role
moderator = record {
  id = 7;
  organization_id = 1;
  space_id = 2;
  name = text "Moderator";
  color = none;
  position = pos 0;
  permissions_bitset = 4;
}

-- Role 7 may manage messages; in channel 3 the role is denied sending, and member 9 is allowed it.
abbrev role_override : ChannelPermissionOverride
role_override = record {
  channel_id = 3;
  target_kind = role_target;
  target_id = 7;
  allow_bitset = 0;
  deny_bitset = 2;
}

abbrev member_override : ChannelPermissionOverride
member_override = record {
  channel_id = 3;
  target_kind = member_target;
  target_id = 9;
  allow_bitset = 2;
  deny_bitset = 0;
}

abbrev sample : MemoryPermissionState
sample = record {
  roles_by_id = (7, moderator) ∷ [];
  role_id_by_space_name = ((2, text "moderator"), 7) ∷ [];
  assignments_by_role_user =
      ((7, 9), record { space_id = 2; role_id = 7; user_id = 9; assigned_by_user_id = 1 })
      ∷ ((7, 10), record { space_id = 2; role_id = 7; user_id = 10; assigned_by_user_id = 1 })
      ∷ [];
  overrides_by_target =
      ((3, (text "role", 7)), role_override) ∷ ((3, (text "member", 9)), member_override) ∷ [];
}

abbrev member : Text
member = text "member"

can_send_in_channel :
    ((can_in_channel memory_store 9 2 member 3 send_messages (healthy sample)).0 ≡ ok true)
    × ((can_in_channel memory_store 10 2 member 3 send_messages (healthy sample)).0 ≡ ok false)
    × ((can_in_channel memory_store 10 2 member 4 send_messages (healthy sample)).0 ≡ ok true)
unfolding can_in_channel Memory.assigned_roles_for_user Memory.channel_overrides_for_user
    is_admin_role text_eqb get with_roles builtin_permissions_for_role apply_channel_overrides
    collect_masks absorb apply_masks has_bit bit_not
can_send_in_channel = (refl, refl, refl)

parse_trimmed : parse (text " view_channel ") ≡ ok view_channel
unfolding parse text_eqb trim is_whitespace ascii_upper
parse_trimmed = refl

plain : is_admin_role member ≡ false
unfolding is_admin_role text_eqb
plain = refl

can_in_channel-memory_example :
    (assigned : List AssignedRole) × (os : List ChannelPermissionOverride) × ((r : AssignedRole)
      → r ∈ assigned ↔ IsAssigned 2 9 sample r)
    × ((o : ChannelPermissionOverride) → o ∈ os ↔ Applies 3 9 (role_ids assigned) sample o)
    × (can_in_channel memory_store 9 2 member 3 send_messages (healthy sample) ≡ (
      ok (granted send_messages 9 (role_ids assigned) (holds send_messages member assigned) os),
      healthy sample,
    ))
can_in_channel-memory_example =
    can_in_channel-memory 9 2 member 3 send_messages sample plain (omega arith)

apply_channel_overrides-granted_example :
    has_bit
      (apply_channel_overrides 3 9 (7 ∷ []) (role_override ∷ member_override ∷ []))
      send_messages
    ≡ granted send_messages 9
        (7 ∷ [])
        (has_bit 3 send_messages)
        (role_override ∷ member_override ∷ [])
apply_channel_overrides-granted_example =
    apply_channel_overrides-granted send_messages 3 9 (7 ∷ [])
      (role_override ∷ member_override ∷ []) (omega arith)

can_in_channel-set_channel_override_denied_example :
    let after =
      (set_channel_override memory_store 3 member_target 9 []
        (text "send_messages" ∷ [])
        (healthy sample)).1 in
    (can_in_channel memory_store 9 2 member 3 send_messages after).0 ≡ ok false
unfolding parse_permission_list parse text_eqb trim is_whitespace ascii_upper has_bit
can_in_channel-set_channel_override_denied_example =
    can_in_channel-set_channel_override_denied 9 2 member 3 send_messages []
      (text "send_messages" ∷ []) {a = 0} {d = 2} sample plain (omega arith) refl refl refl

abbrev with_moderator : MemoryPermissionState
with_moderator = (create_role moderator (healthy empty_state)).1.guarded

create_role-IsConsistent_example : IsConsistent with_moderator
unfolding get
create_role-IsConsistent_example =
    create_role-IsConsistent moderator empty_state empty_state-IsConsistent refl

create_role-refused_iff_example :
    (create_role moderator (healthy empty_state) ≡ (err role_already_exists, healthy empty_state))
    ↔ ((id : ℕ) × (r : Role) × (get empty_state.roles_by_id id ≡ some r)
        × (name_key r ≡ name_key moderator))
create_role-refused_iff_example =
    create_role-refused_iff moderator empty_state empty_state-IsConsistent

parse_permission_list-permission_names_example :
    parse_permission_list (permission_names 1029) ≡ ok 1029
parse_permission_list-permission_names_example =
    parse_permission_list-permission_names 1029 (omega arith)
