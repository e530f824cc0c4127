-- ===== src/Space/Access.antt =====
-- What a user gets for a space after a member was added to it or removed from it.
use opencord_server.Base.{
  true, false, if◌then◌else◌, Option, none, some, Uuid, text, text_eqb, text_eqb_iff, text_eq,
  nat_eq, pair_eq, pair_eqb, pair_eqb_iff, ok, ◌≡◌, refl, arith, Option-cases, inl, inr,
}
use opencord_server.Base.Map.{get, get-insert}
use opencord_server.Space.{StoredSpaceMember, SpaceMembership}
use opencord_server.Space.Memory.{
  MemorySpaceState, active, is_active, member_key, merge_member, add_member_body,
  remove_member_body, get_for_user_body,
}

merge_member-active :
    (m : StoredSpaceMember) (o : Option StoredSpaceMember)
    → m.status ≡ active
    → is_active (merge_member m o) ≡ true
unfolding merge_member
merge_member-active m none h = ground (arith, h, text_eqb_iff m.status active)
merge_member-active m (some old) h = ground (arith, text_eqb_iff active active)

-- When a member was added with the status "active", the user gets exactly the membership that the
-- call returned, whether the user was new, had left or was there; every other user and every other
-- space get what they got before.
pub get_for_user-add_member :
    (m : StoredSpaceMember) (s s' : MemorySpaceState) (r : SpaceMembership) (user space : Uuid)
    → m.status ≡ active
    → add_member_body m s ≡ (ok r, s')
    → get_for_user_body user space s'
      ≡ (if pair_eqb (member_key m) (space, user) then some r else get_for_user_body user space s)
unfolding add_member_body get_for_user_body
get_for_user-add_member m s s' r user space here added =
    elim (Option-cases (get s.spaces_by_id m.space_id)) [
      | inl missing ↦ cc (rw (missing, add_member_body) at added)
      | inr (sp, found) ↦
          let added' = rw (found, add_member_body) at added in
          let merged = merge_member m (get s.members_by_space_user (member_key m)) in
          ground (
            arith,
            added',
            found,
            get-insert s.members_by_space_user (member_key m) (space, user) merged,
            pair_eqb_iff (member_key m) (space, user),
            merge_member-active m (get s.members_by_space_user (member_key m)) here,
          )
    ]

inactive : text_eqb (text "inactive") active ≡ false
unfolding text_eqb
inactive = refl

-- When a member was removed, the user gets nothing for that space any more, and every other user and
-- every other space get what they got before.
pub get_for_user-remove_member :
    (space_id user_id : Uuid) (s s' : MemorySpaceState) (user space : Uuid)
    → remove_member_body space_id user_id s ≡ (ok tt, s')
    → get_for_user_body user space s' ≡ (
        if pair_eqb (space_id, user_id) (space, user) then none else get_for_user_body user space s)
unfolding remove_member_body get_for_user_body
get_for_user-remove_member space_id user_id s s' user space removed =
    elim (Option-cases (get s.members_by_space_user (space_id, user_id))) [
      | inl missing ↦ cc (rw (missing, remove_member_body) at removed)
      | inr (m, found) ↦
          let removed' = rw (found, remove_member_body) at removed in
          ground (
            arith,
            removed',
            found,
            get-insert s.members_by_space_user (space_id, user_id) (space, user)
                (record m { status = text "inactive" }),
            pair_eqb_iff (space_id, user_id) (space, user),
            inactive,
          )
    ]
