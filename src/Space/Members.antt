-- ===== src/Space/Members.antt =====
-- Who is a member of a space in the in-memory store: the owner stays, others come and go.
use opencord_server.Base.{
  false, List, some, Uuid, text, text_eqb, text_eqb_iff, text_eq, nat_eq, pair_eq, pair_eqb,
  pair_eqb_iff, ◌≡◌, arith, ◌∙◌, ap, Bool-cases, Option-cases, inl, inr,
}
use opencord_server.Base.Map.{HashMap, get, insert, contains_key, get-insert}
use opencord_server.Space.{StoredSpace, StoredSpaceMember, SpaceMembership}
use opencord_server.Space.Memory.{
  MemorySpaceState, owner, active, is_active, member_key, merge_member, create_space_body,
  add_member_body, remove_member_body, update_space_body, archive_space_body, get_for_user_body,
  slug_key,
}
use opencord_server.Space.Commands.{Command, run_all, Keeps, run_all-keeps}

abbrev Members : Type 0
Members = HashMap (Uuid × Uuid) StoredSpaceMember

-- A user is an active owner of a space, in a table of members.
pub record IsOwner (space_id user_id : Uuid) (members : Members) : Type 0 where
  pub member : StoredSpaceMember
  pub stored : get members (space_id, user_id) ≡ some member
  pub owns : member.role ≡ owner
  pub is_here : member.status ≡ active

get_for_user-role :
    (user space : Uuid) (s : MemorySpaceState) (member : StoredSpaceMember) (m : SpaceMembership)
    → get s.members_by_space_user (space, user) ≡ some member
    → get_for_user_body user space s ≡ some m
    → m.role ≡ member.role
unfolding get_for_user_body
get_for_user-role user space s member m stored found =
    let found' = rw (stored, get_for_user_body) at found in ground (arith, found')

module _ (space_id user_id : Uuid) where
  insert-IsOwner :
      (members : Members) (k : Uuid × Uuid) (m : StoredSpaceMember)
      → (k ≡ (space_id, user_id) → (m.role ≡ owner) × (m.status ≡ active))
      → IsOwner space_id user_id members
      → IsOwner space_id user_id (insert members k m)
  insert-IsOwner members k m good h = elim (Bool-cases (pair_eqb k (space_id, user_id))) [
    | inl same ↦
        let (owns, here) = good ((pair_eqb_iff k (space_id, user_id)).0 same) in
        record {
          member = m;
          stored = ground (arith, get-insert members k (space_id, user_id) m, same);
          owns = owns;
          is_here = here;
        }
    | inr other ↦ record {
      member = h.member;
      stored = ground (arith, get-insert members k (space_id, user_id) m, other, h.stored);
      owns = h.owns;
      is_here = h.is_here;
    }
  ]

  create_space-IsOwner :
      (space : StoredSpace) (m : StoredSpaceMember) (s : MemorySpaceState)
      → m.role ≡ owner
      → m.status ≡ active
      → IsOwner space_id user_id s.members_by_space_user
      → IsOwner space_id user_id (create_space_body space m s).1.members_by_space_user
  unfolding create_space_body
  create_space-IsOwner space m s r a h =
      elim (Bool-cases (contains_key s.space_id_by_org_slug (slug_key space))) [
        | inl taken ↦ rw taken h
        | inr free ↦
            rw free (insert-IsOwner s.members_by_space_user (member_key m) m (λ _. (r, a)) h)
      ]

  -- Merging over an owner leaves an active owner.
  merge_member-owner :
      (members : Members) (m : StoredSpaceMember)
      → IsOwner space_id user_id members
      → member_key m ≡ (space_id, user_id)
      → let merged = merge_member m (get members (member_key m)) in
        (merged.role ≡ owner) × (merged.status ≡ active)
  unfolding merge_member
  merge_member-owner members m h e =
      let found : get members (member_key m) ≡ some h.member = ap (get members) e ∙ h.stored in
      rw found (ground (arith, text_eqb_iff h.member.role owner, h.owns))

  add_member-IsOwner :
      (m : StoredSpaceMember) (s : MemorySpaceState)
      → IsOwner space_id user_id s.members_by_space_user
      → IsOwner space_id user_id (add_member_body m s).1.members_by_space_user
  unfolding add_member_body
  add_member-IsOwner m s h = elim (Option-cases (get s.spaces_by_id m.space_id)) [
    | inl missing ↦ rw (missing, add_member_body) h
    | inr (space, found) ↦
        rw (found, add_member_body)
          (insert-IsOwner s.members_by_space_user (member_key m)
            (merge_member m (get s.members_by_space_user (member_key m)))
            (merge_member-owner s.members_by_space_user m h) h)
  ]

  remove_member-IsOwner :
      (space user : Uuid) (m : SpaceMembership) (s : MemorySpaceState)
      → get_for_user_body user space s ≡ some m
      → text_eqb m.role owner ≡ false
      → IsOwner space_id user_id s.members_by_space_user
      → IsOwner space_id user_id (remove_member_body space user s).1.members_by_space_user
  unfolding remove_member_body
  remove_member-IsOwner space user m s found plain h =
      elim (Option-cases (get s.members_by_space_user (space, user))) [
        | inl missing ↦ rw (missing, remove_member_body) h
        | inr (member, stored) ↦ elim (Bool-cases (is_active member)) [
          | inr off ↦ rw (stored, remove_member_body, off) h
          | inl on ↦
              rw (stored, remove_member_body, on)
                (insert-IsOwner s.members_by_space_user (space, user)
                  (record member { status = text "inactive" })
                  (λ same. absurd (another member stored same)) h)
        ]
      ]
    where
      another :
          (member : StoredSpaceMember)
          → get s.members_by_space_user (space, user) ≡ some member
          → ◌≡◌ {A = Uuid × Uuid} (space, user) (space_id, user_id)
          → ⊥
      another member stored same =
          let here : get s.members_by_space_user (space, user) ≡ some h.member =
            ap (get s.members_by_space_user) same ∙ h.stored in
          ground (
            arith,
            here,
            get_for_user-role user space s h.member m here found,
            text_eqb_iff m.role owner,
            h.owns,
            plain,
          )

  update_space-IsOwner :
      (m : SpaceMembership) (s : MemorySpaceState)
      → IsOwner space_id user_id s.members_by_space_user
      → IsOwner space_id user_id (update_space_body m s).1.members_by_space_user
  unfolding update_space_body
  update_space-IsOwner m s h = ground (arith, h)

  archive_space-IsOwner :
      (space organization_id : Uuid) (s : MemorySpaceState)
      → IsOwner space_id user_id s.members_by_space_user
      → IsOwner space_id user_id
          (archive_space_body space organization_id s).1.members_by_space_user
  unfolding archive_space_body
  archive_space-IsOwner space organization_id s h = ground (arith, h)

  IsOwner-Keeps : Keeps (λ s. IsOwner space_id user_id s.members_by_space_user)
  IsOwner-Keeps = record {
    by_create = create_space-IsOwner;
    by_add_member = λ m s _ h. add_member-IsOwner m s h;
    by_remove_member = remove_member-IsOwner;
    by_update = update_space-IsOwner;
    by_archive = archive_space-IsOwner;
  }

  -- No sequence of calls of the service on the in-memory store removes an owner of a space, takes the
  -- role away, or makes the owner inactive.
  pub run_all-IsOwner :
      (cs : List Command) (s : MemorySpaceState)
      → IsOwner space_id user_id s.members_by_space_user
      → IsOwner space_id user_id (run_all cs s).members_by_space_user
  run_all-IsOwner cs s h =
      run_all-keeps (λ s. IsOwner space_id user_id s.members_by_space_user) IsOwner-Keeps cs s h
