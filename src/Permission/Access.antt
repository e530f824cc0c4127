-- ===== src/Permission/Access.antt =====
-- What `can_in_channel`, `can_in_space` and the requirements decide, over any store and over the
-- in-memory one.
use Prim.Native.Nat.{bit_or}
use opencord_server.Base.{
  ℕ, ◌&&◌, ◌||◌, Bool, true, false, nat_eqb, List, [], ◌∷◌, any, All, Text, Uuid, contains, nat_eq,
  text_eq, pair_eq, ok, ◌≡◌, refl, arith, ◌∙◌, ◌↔◌, ap, any-filter, All-filter,
}
use opencord_server.Base.Action.{healthy}
use opencord_server.Base.Map.{insert, values, any-values-insert, All-values-insert}
use opencord_server.Base.Bits.{test_bit, test_bit-bit_or}
use opencord_server.Permission.{
  Permission, index, has_bit, AssignedRole, member_target, ChannelPermissionOverride,
}
use opencord_server.Permission.Evaluate.{is_admin_role, builtin_permissions_for_role}
use opencord_server.Permission.Input.{parse_permission_list}
use opencord_server.Base.Member.{◌∈◌}
use opencord_server.Permission.Assigned.{
  IsAssigned, Applies, roles_of-IsAssigned, overrides_of-Applies,
}
use opencord_server.Permission.Store.{PermissionStore}
use opencord_server.Permission.Memory
use opencord_server.Permission.Memory.{
  MemoryPermissionState, memory_store, overrides_of, roles_of, target_key,
}
use opencord_server.Permission.Names.{has_bit-test_bit, parse_permission_list-lt}
use opencord_server.Permission.Overrides.{
  IsU64, granted, member_denies, apply_channel_overrides-granted,
}
use opencord_server.Permission.Service.{
  with_roles, role_ids, can_in_space, can_in_channel, set_channel_override,
}

-- What a user has in a space: by the role's builtin permissions, or by one of the assigned roles.
abbrev pub holds : Permission → Text → List AssignedRole → Bool
holds p role assigned =
    has_bit (builtin_permissions_for_role role) p
    || any (λ r. test_bit r.permissions_bitset (index p)) assigned

with_roles-bits :
    (start : ℕ) (assigned : List AssignedRole) (i : ℕ)
    → test_bit (with_roles start assigned) i
      ≡ (test_bit start i || any (λ r. test_bit r.permissions_bitset i) assigned)
unfolding with_roles
with_roles-bits start [] i = ground arith
with_roles-bits start (r ∷ rs) i = ground (
  arith,
  with_roles-bits (bit_or start r.permissions_bitset) rs i,
  test_bit-bit_or i start r.permissions_bitset,
)

with_roles-holds :
    (p : Permission) (role : Text) (assigned : List AssignedRole)
    → has_bit (with_roles (builtin_permissions_for_role role) assigned) p ≡ holds p role assigned
with_roles-holds p role assigned = ground (
  arith,
  has_bit-test_bit (with_roles (builtin_permissions_for_role role) assigned) p,
  has_bit-test_bit (builtin_permissions_for_role role) p,
  with_roles-bits (builtin_permissions_for_role role) assigned (index p),
)

module _ (store : PermissionStore) where
  open store use {State}

  -- Over any store: for a user whose role in the space is not owner or admin, `can_in_space` says
  -- whether the user holds the permission by the builtin or the assigned roles that the store
  -- returned.
  pub can_in_space-holds :
      (user space : Uuid) (role : Text) (p : Permission) (s s1 : State)
      (assigned : List AssignedRole)
      → is_admin_role role ≡ false
      → store.assigned_roles_for_user space user s ≡ (ok assigned, s1)
      → can_in_space store user space role p s ≡ (ok (holds p role assigned), s1)
  unfolding can_in_space
  can_in_space-holds user space role p s s1 assigned plain read =
      rw (plain, read) (ap (λ b. (ok b, s1)) (with_roles-holds p role assigned))

  -- Over any store: for a user whose role in the space is not owner or admin, `can_in_channel`
  -- decides by the precedence of `granted` over the overrides that the store returned, with what the
  -- user holds in the space as its base, if the bitsets of the overrides are 64-bit words.
  pub can_in_channel-granted :
      (user space : Uuid) (role : Text) (channel : Uuid) (p : Permission) (s s1 s2 : State)
      (assigned : List AssignedRole) (os : List ChannelPermissionOverride)
      → is_admin_role role ≡ false
      → store.assigned_roles_for_user space user s ≡ (ok assigned, s1)
      → store.channel_overrides_for_user channel user (role_ids assigned) s1 ≡ (ok os, s2)
      → All IsU64 os
      → can_in_channel store user space role channel p s
        ≡ (ok (granted p user (role_ids assigned) (holds p role assigned) os), s2)
  unfolding can_in_channel
  can_in_channel-granted user space role channel p s s1 s2 assigned os plain roles read words =
      rw (plain, roles, read)
        (ap (λ b. (ok b, s2))
          (apply_channel_overrides-granted p _ user (role_ids assigned) os words
            ∙ ap (λ b. granted p user (role_ids assigned) b os) (with_roles-holds p role assigned)))

abbrev pub StateU64 : MemoryPermissionState → Type 0
StateU64 s = All IsU64 (values s.overrides_by_target)

-- The answer, by what the store reads.
can_in_channel-stored :
    (user space : Uuid) (role : Text) (channel : Uuid) (p : Permission) (s : MemoryPermissionState)
    → is_admin_role role ≡ false
    → StateU64 s
    → let assigned = roles_of space user s in
      can_in_channel memory_store user space role channel p (healthy s) ≡ (
        ok (
            granted p user
              (role_ids assigned)
              (holds p role assigned)
              (overrides_of channel user (role_ids assigned) s)),
        healthy s,
      )
unfolding Memory.assigned_roles_for_user Memory.channel_overrides_for_user overrides_of
can_in_channel-stored user space role channel p s plain words =
    let assigned = roles_of space user s in
    let os = overrides_of channel user (role_ids assigned) s in
    can_in_channel-granted memory_store user space role channel p (healthy s) (healthy s)
      (healthy s) assigned os plain refl refl (All-filter IsU64 _ _ (All-filter IsU64 _ _ words))

-- The in-memory store, with a lock that is not poisoned, and the service together: for a user who is
-- not owner or admin of the space, `can_in_channel` leaves the state alone and answers `granted`, with
-- what the user holds in the space as its base, for the stored roles that were assigned to the user in
-- that space, all of them and no other, and for the overrides that are stored for that channel and for
-- the user or one of these roles, all of them and no other; if the bitsets of the stored overrides are
-- 64-bit words.
pub can_in_channel-memory :
    (user space : Uuid) (role : Text) (channel : Uuid) (p : Permission) (s : MemoryPermissionState)
    → is_admin_role role ≡ false
    → StateU64 s
    → (assigned : List AssignedRole) × (os : List ChannelPermissionOverride) × ((r : AssignedRole)
        → r ∈ assigned ↔ IsAssigned space user s r)
      × ((o : ChannelPermissionOverride) → o ∈ os ↔ Applies channel user (role_ids assigned) s o)
      × (can_in_channel memory_store user space role channel p (healthy s)
          ≡ (ok (granted p user (role_ids assigned) (holds p role assigned) os), healthy s))
can_in_channel-memory user space role channel p s plain words =
    let assigned = roles_of space user s in
    (
      assigned,
      overrides_of channel user (role_ids assigned) s,
      roles_of-IsAssigned space user s,
      overrides_of-Applies channel user (role_ids assigned) s,
      can_in_channel-stored user space role channel p s plain words,
    )

-- An override that was just stored is among those that are read for its target.
any-overrides_of :
    (f : ChannelPermissionOverride → Bool) (o : ChannelPermissionOverride)
    (k : Uuid × (Text × Uuid)) (ids : List Uuid) (s : MemoryPermissionState)
    → f o ≡ true
    → any f (
        overrides_of o.channel_id o.target_id ids
          (record s { overrides_by_target = insert s.overrides_by_target k o }))
      ≡ true
unfolding overrides_of
any-overrides_of f o k ids s h = simp any-filter (
    any-values-insert
      (λ x.
        nat_eqb x.channel_id o.channel_id
        && ((nat_eqb x.target_id o.target_id || contains ids x.target_id) && f x))
      s.overrides_by_target k o (ground arith))

granted_of_member_denies :
    (p : Permission) (user : Uuid) (ids : List Uuid) (base : Bool)
    (os : List ChannelPermissionOverride)
    → member_denies p user ids os ≡ true
    → granted p user ids base os ≡ false
granted_of_member_denies p user ids base os h = rw h

-- Setting an override of a channel for a member, through the service and the in-memory store, whose
-- list of denials holds a permission: from then on `can_in_channel` refuses that permission to the
-- member in that channel, whatever roles and other overrides stand in the state, unless the member
-- is owner or admin of the space. The names of both lists are accepted, the lock is not poisoned, and
-- the bitsets of the overrides that are stored before are 64-bit words.
pub can_in_channel-set_channel_override_denied :
    (user space : Uuid) (role : Text) (channel : Uuid) (p : Permission) (allow deny : List Text)
    {a d : ℕ} (s : MemoryPermissionState)
    → is_admin_role role ≡ false
    → StateU64 s
    → parse_permission_list allow ≡ ok a
    → parse_permission_list deny ≡ ok d
    → has_bit d p ≡ true
    → let after =
        (set_channel_override memory_store channel member_target user allow deny (healthy s)).1 in
      (can_in_channel memory_store user space role channel p after).0 ≡ ok false
unfolding set_channel_override Memory.upsert_channel_override
can_in_channel-set_channel_override_denied user space role channel p allow deny {a} {d} s plain
      words pa pd denied =
    let o : ChannelPermissionOverride = record {
      channel_id = channel;
      target_kind = member_target;
      target_id = user;
      allow_bitset = a;
      deny_bitset = d;
    } in
    let s' = record s { overrides_by_target = insert s.overrides_by_target (target_key o) o } in
    let ids = role_ids (roles_of space user s') in
    let word : IsU64 o = (
      omega (arith, parse_permission_list-lt allow pa),
      omega (arith, parse_permission_list-lt deny pd),
    ) in
    let words' : StateU64 s' =
      All-values-insert IsU64 s.overrides_by_target (target_key o) o word words in
    let counted : member_denies p user ids (overrides_of channel user ids s') ≡ true =
      any-overrides_of _ o (target_key o) ids s (ground (arith, denied, has_bit-test_bit d p)) in
    rw (pa, pd)
      (ap (λ r. r.0) (can_in_channel-stored user space role channel p s' plain words')
        ∙ ap ok (
            granted_of_member_denies p user ids (holds p role (roles_of space user s'))
              (overrides_of channel user ids s') counted))
