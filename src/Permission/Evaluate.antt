-- ===== src/Permission/Evaluate.antt =====
-- src/domain/permission.rs: the permissions that a role has by itself, and `apply_channel_overrides`.
use Prim.Native.Nat.{bit_and, bit_or}
use opencord_server.Base.{
  ℕ, ◌&&◌, ◌||◌, Bool, true, false, not, nat_eqb, if◌then◌else◌, List, [], ◌∷◌, Text, Uuid, text,
  text_eqb, contains, nat_eq,
}
use opencord_server.Base.Bits.{bit_not}
use opencord_server.Permission.{
  view_channel, send_messages, bit, all_minimal_permissions, PermissionTargetKind, role_target,
  member_target, ChannelPermissionOverride,
}

unfoldable pub is_admin_role : Text → Bool
is_admin_role role = text_eqb role (text "owner") || text_eqb role (text "admin")

unfoldable pub builtin_permissions_for_role : Text → ℕ
builtin_permissions_for_role role =
    if text_eqb role (text "owner") || text_eqb role (text "admin")
    then all_minimal_permissions
    else if text_eqb role (text "member")
    then bit_or (bit view_channel) (bit send_messages)
    else if text_eqb role (text "guest")
    then bit view_channel
    else 0

-- The four accumulators of the loop in `apply_channel_overrides`.
pub record Masks : Type 0 where
  pub role_allow : ℕ
  pub role_deny : ℕ
  pub member_allow : ℕ
  pub member_deny : ℕ

abbrev pub no_masks : Masks
no_masks = record { role_allow = 0; role_deny = 0; member_allow = 0; member_deny = 0 }

abbrev pub is_role_target : PermissionTargetKind → Bool
is_role_target role_target = true
is_role_target member_target = false

-- The two guarded arms of the match: which overrides count for the user.
abbrev pub for_roles : List Uuid → ChannelPermissionOverride → Bool
for_roles role_ids o = is_role_target o.target_kind && contains role_ids o.target_id

abbrev pub for_member : Uuid → ChannelPermissionOverride → Bool
for_member user_id o = not (is_role_target o.target_kind) && nat_eqb o.target_id user_id

unfoldable pub absorb : Uuid → List Uuid → Masks → ChannelPermissionOverride → Masks
absorb user_id role_ids m o =
    if for_roles role_ids o
    then record m {
      role_allow = bit_or m.role_allow o.allow_bitset;
      role_deny = bit_or m.role_deny o.deny_bitset;
    }
    else if for_member user_id o
    then record m {
      member_allow = bit_or m.member_allow o.allow_bitset;
      member_deny = bit_or m.member_deny o.deny_bitset;
    }
    else m

unfoldable pub collect_masks : Uuid → List Uuid → Masks → List ChannelPermissionOverride → Masks
collect_masks user_id role_ids m [] = m
collect_masks user_id role_ids m (o ∷ os) =
    collect_masks user_id role_ids (absorb user_id role_ids m o) os

-- The four assignments after the loop; `!` is on 64 bits.
unfoldable pub apply_masks : ℕ → Masks → ℕ
apply_masks effective m =
    let e1 = bit_and effective (bit_not 64 m.role_deny) in
    let e2 = bit_or e1 (bit_and m.role_allow (bit_not 64 m.role_deny)) in
    let e3 = bit_and e2 (bit_not 64 m.member_deny) in
    bit_or e3 (bit_and m.member_allow (bit_not 64 m.member_deny))

unfoldable pub apply_channel_overrides : ℕ → Uuid → List Uuid → List ChannelPermissionOverride → ℕ
apply_channel_overrides effective user_id role_ids overrides =
    apply_masks effective (collect_masks user_id role_ids no_masks overrides)
