-- ===== src/Permission/Assigned.antt =====
-- Which roles a user has in a space, and which overrides of a channel are the user's, by what stands in the
-- in-memory store.
use opencord_server.Base.{
  ◌&&◌, ◌||◌, nat_eqb, nat_eqb_iff, List, filter, contains, some, Uuid, nat_eq, text_eq, pair_eq,
  ◌≡◌, sym, arith, ap, ◌↔◌, ◌⊎◌, inl, inr, Bool-cases, Option-cases,
}
use opencord_server.Base.Map.{get, values}
use opencord_server.Base.Member.{◌∈◌, mem-filter_iff, mem-filter_map_iff, mem-contains_iff}
use opencord_server.Permission.{Role, RoleAssignment, AssignedRole, ChannelPermissionOverride}
use opencord_server.Permission.Memory.{MemoryPermissionState, assigned_role, roles_of, overrides_of}

-- The role was assigned to the user in the space, and is stored.
pub record IsAssigned (space user : Uuid) (s : MemoryPermissionState) (r : AssignedRole)
    : Type 0 where
  pub assignment : RoleAssignment
  pub role : Role
  pub stored : assignment ∈ values s.assignments_by_role_user
  pub in_space : assignment.space_id ≡ space
  pub of_user : assignment.user_id ≡ user
  pub has_role : get s.roles_by_id assignment.role_id ≡ some role
  pub is_role : r ≡ record { id = role.id; permissions_bitset = role.permissions_bitset }

-- The override is stored for the channel, and for the user or one of the roles.
pub record Applies (channel user : Uuid) (role_ids : List Uuid) (s : MemoryPermissionState)
    (o : ChannelPermissionOverride) : Type 0 where
  pub stored : o ∈ values s.overrides_by_target
  pub of_channel : o.channel_id ≡ channel
  pub targets : (o.target_id ≡ user) ⊎ (o.target_id ∈ role_ids)

assigned_role-some :
    (s : MemoryPermissionState) (a : RoleAssignment) (r : AssignedRole)
    → assigned_role s a ≡ some r
    → (role : Role) × (get s.roles_by_id a.role_id ≡ some role)
      × (r ≡ record { id = role.id; permissions_bitset = role.permissions_bitset })
assigned_role-some s a r h = elim (Option-cases (get s.roles_by_id a.role_id)) [
  | inl missing ↦ cc (rw (missing, assigned_role) at h)
  | inr (role, found) ↦ (role, found, ground (arith, rw (found, assigned_role) at h))
]

pub roles_of-IsAssigned :
    (space user : Uuid) (s : MemoryPermissionState) (r : AssignedRole)
    → r ∈ roles_of space user s ↔ IsAssigned space user s r
unfolding roles_of
roles_of-IsAssigned space user s r =
    let all = values s.assignments_by_role_user in
    let mine = λ (a : RoleAssignment). nat_eqb a.space_id space && nat_eqb a.user_id user in
    let (forth, back) = mem-filter_map_iff (assigned_role s) r (filter mine all) in
    (
      λ h.
          let (a, among, made) = forth h in
          let (stored, passes) = (mem-filter_iff mine a all).0 among in
          let (role, found, is_role) = assigned_role-some s a r made in
          record {
            assignment = a;
            role = role;
            stored = stored;
            in_space = ground (arith, passes);
            of_user = ground (arith, passes);
            has_role = found;
            is_role = is_role;
          },
      λ h. back (
        h.assignment,
        (mem-filter_iff mine h.assignment all).1 (h.stored, ground (arith, h.in_space, h.of_user)),
        rw (assigned_role, h.has_role) (ap some (sym h.is_role)),
      ),
    )

pub overrides_of-Applies :
    (channel user : Uuid) (role_ids : List Uuid) (s : MemoryPermissionState)
    (o : ChannelPermissionOverride)
    → o ∈ overrides_of channel user role_ids s ↔ Applies channel user role_ids s o
unfolding overrides_of
overrides_of-Applies channel user role_ids s o =
    let all = values s.overrides_by_target in
    let here = λ (x : ChannelPermissionOverride). nat_eqb x.channel_id channel in
    let mine = λ (x : ChannelPermissionOverride).
      nat_eqb x.target_id user || contains role_ids x.target_id in
    let (forth, back) = mem-contains_iff role_ids o.target_id in
    (
      λ h.
          let (among, passes) = (mem-filter_iff mine o (filter here all)).0 h in
          let (stored, in_channel) = (mem-filter_iff here o all).0 among in
          record {
            stored = stored;
            of_channel = ground (arith, in_channel);
            targets = elim (Bool-cases (nat_eqb o.target_id user)) [
              | inl own ↦ inl ((nat_eqb_iff o.target_id user).0 own)
              | inr other ↦ inr (forth (ground (arith, passes, other)))
            ];
          },
      λ h. (mem-filter_iff mine o (filter here all)).1 (
        (mem-filter_iff here o all).1 (h.stored, ground (arith, h.of_channel)),
        elim h.targets [ inl own ↦ ground (arith, own) | inr role ↦ ground (arith, back role) ],
      ),
    )
