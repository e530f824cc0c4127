-- ===== src/Space/Index.antt =====
-- The tables of spaces and slugs of the in-memory store stay in step: a slug is used once in an
-- organization.
use opencord_server.Base.{
  true, false, nat_eqb, List, none, some, Uuid, nat_eq, text_eq, pair_eq, pair_eqb_iff, beq_refl,
  err, ◌≡◌, refl, arith, ◌∙◌, ap, Bool-cases, Option-cases, inl, inr,
}
use opencord_server.Base.Map.{get, insert, remove, get-insert, get-remove}
use opencord_server.Space.{StoredSpace, StoredSpaceMember, SpaceMembership, slug_already_exists}
use opencord_server.Space.Memory.{
  MemorySpaceState, slug_key, membership_key, renamed, taken_by_other, empty_state,
  create_space_body, add_member_body, remove_member_body, update_space_body, archive_space_body,
  is_active,
}
use opencord_server.Space.Commands.{Command, run_all, Keeps, run_all-keeps}

pub record IsIndexed (s : MemorySpaceState) : Type 0 where
  pub own_id : (i : Uuid) (space : StoredSpace) → get s.spaces_by_id i ≡ some space → space.id ≡ i
  pub indexed :
      (i : Uuid) (space : StoredSpace)
      → get s.spaces_by_id i ≡ some space
      → get s.space_id_by_org_slug (slug_key space) ≡ some i

create_space-IsIndexed :
    (space : StoredSpace) (m : StoredSpaceMember) (s : MemorySpaceState)
    → IsIndexed s
    → IsIndexed (create_space_body space m s).1
unfolding create_space_body
create_space-IsIndexed space m s inv =
    elim (Option-cases (get s.space_id_by_org_slug (slug_key space))) [
      | inr (i, taken) ↦ rw taken inv
      | inl free ↦ rw free (record {
        own_id =
            λ i x h. ground (arith, get-insert s.spaces_by_id space.id i space, inv.own_id i x);
        indexed = λ i x h. ground (
          arith,
          get-insert s.spaces_by_id space.id i space,
          get-insert s.space_id_by_org_slug (slug_key space) (slug_key x) space.id,
          inv.indexed i x,
          pair_eqb_iff (slug_key space) (slug_key x),
        );
      })
    ]

update_space-indexed :
    (m : SpaceMembership) (s : MemorySpaceState) (old : StoredSpace)
    → IsIndexed s
    → get s.spaces_by_id m.id ≡ some old
    → taken_by_other m.id (get s.space_id_by_org_slug (membership_key m)) ≡ false
    → (i : Uuid) (x : StoredSpace) → get (insert s.spaces_by_id m.id (renamed m old)) i ≡ some x
    → get
        (insert (remove s.space_id_by_org_slug (slug_key old)) (membership_key m) m.id)
        (slug_key x)
      ≡ some i
update_space-indexed m s old inv found free i x h = elim (Bool-cases (nat_eqb m.id i)) [
  | inl same ↦ ground (
    arith,
    same,
    get-insert s.spaces_by_id m.id i (renamed m old),
    get-insert (remove s.space_id_by_org_slug (slug_key old)) (membership_key m) (slug_key x) m.id,
    pair_eqb_iff (membership_key m) (slug_key x),
  )
  | inr other ↦ ground (
    arith,
    other,
    get-insert s.spaces_by_id m.id i (renamed m old),
    get-insert (remove s.space_id_by_org_slug (slug_key old)) (membership_key m) (slug_key x) m.id,
    get-remove s.space_id_by_org_slug (slug_key old) (slug_key x),
    pair_eqb_iff (membership_key m) (slug_key x),
    pair_eqb_iff (slug_key old) (slug_key x),
    inv.indexed m.id old found,
    inv.indexed i x,
  )
]

update_space-IsIndexed :
    (m : SpaceMembership) (s : MemorySpaceState) → IsIndexed s → IsIndexed (update_space_body m s).1
unfolding update_space_body
update_space-IsIndexed m s inv = elim (Option-cases (get s.spaces_by_id m.id)) [
  | inl missing ↦ rw (missing, update_space_body) inv
  | inr (old, found) ↦
      elim (Bool-cases (taken_by_other m.id (get s.space_id_by_org_slug (membership_key m)))) [
        | inl taken ↦ rw (found, update_space_body, taken) inv
        | inr free ↦
            rw (found, update_space_body, free)
              (record {
                own_id = λ i x h.
                    ground
                      (arith, get-insert s.spaces_by_id m.id i (renamed m old), inv.own_id i x);
                indexed = λ i x h. update_space-indexed m s old inv found free i x h;
              })
      ]
]

archive_space-IsIndexed :
    (space_id organization_id : Uuid) (s : MemorySpaceState)
    → IsIndexed s
    → IsIndexed (archive_space_body space_id organization_id s).1
unfolding archive_space_body
archive_space-IsIndexed space_id organization_id s inv =
    elim (Option-cases (get s.spaces_by_id space_id)) [
      | inl missing ↦ rw (missing, archive_space_body) inv
      | inr (space, found) ↦ elim (Bool-cases (nat_eqb space.organization_id organization_id)) [
        | inr other ↦ rw (found, archive_space_body, other) inv
        | inl same ↦
            rw (found, archive_space_body, same)
              (record {
                own_id =
                    λ i x h. ground (arith, get-remove s.spaces_by_id space_id i, inv.own_id i x);
                indexed =
                    λ i x h. ground (arith, get-remove s.spaces_by_id space_id i, inv.indexed i x);
              })
      ]
    ]

add_member-IsIndexed :
    (m : StoredSpaceMember) (s : MemorySpaceState) → IsIndexed s → IsIndexed (add_member_body m s).1
unfolding add_member_body
add_member-IsIndexed m s inv = elim (Option-cases (get s.spaces_by_id m.space_id)) [
  | inl missing ↦ rw (missing, add_member_body) inv
  | inr (space, found) ↦
      rw (found, add_member_body) (record { own_id = inv.own_id; indexed = inv.indexed })
]

remove_member-IsIndexed :
    (space_id user_id : Uuid) (s : MemorySpaceState)
    → IsIndexed s
    → IsIndexed (remove_member_body space_id user_id s).1
unfolding remove_member_body
remove_member-IsIndexed space_id user_id s inv =
    elim (Option-cases (get s.members_by_space_user (space_id, user_id))) [
      | inl missing ↦ rw (missing, remove_member_body) inv
      | inr (m, found) ↦ elim (Bool-cases (is_active m)) [
        | inl on ↦
            rw (found, remove_member_body, on)
              (record { own_id = inv.own_id; indexed = inv.indexed })
        | inr off ↦ rw (found, remove_member_body, off) inv
      ]
    ]

empty_state-IsIndexed : IsIndexed empty_state
unfolding get
empty_state-IsIndexed = record { own_id = λ i x h. cc; indexed = λ i x h. cc }

IsIndexed-Keeps : Keeps IsIndexed
IsIndexed-Keeps = record {
  by_create = λ space m s _ _ h. create_space-IsIndexed space m s h;
  by_add_member = λ m s _ h. add_member-IsIndexed m s h;
  by_remove_member = λ space_id user_id _ s _ _ h. remove_member-IsIndexed space_id user_id s h;
  by_update = update_space-IsIndexed;
  by_archive = archive_space-IsIndexed;
}

-- After any calls of the service on an empty in-memory store, two spaces of one organization with
-- the same slug are the same space, and every space is stored under its own id.
pub run_all-slug_unique :
    (cs : List Command) (i j : Uuid) (a b : StoredSpace)
    → let s = run_all cs empty_state in
      get s.spaces_by_id i ≡ some a
      → get s.spaces_by_id j ≡ some b
      → a.organization_id ≡ b.organization_id
      → a.slug ≡ b.slug
      → (i ≡ j) × (a.id ≡ i)
run_all-slug_unique cs i j a b ha hb org slug =
    let inv = run_all-keeps IsIndexed IsIndexed-Keeps cs empty_state empty_state-IsIndexed in
    ground (arith, inv.indexed i a ha, inv.indexed j b hb, inv.own_id i a ha, org, slug)

-- In a store whose tables agree, a space that is archived keeps its slug: afterwards it is gone from
-- the table of spaces, and creating a space with that slug in its organization is still refused and
-- changes nothing.
pub archive_space-create_space :
    (i : Uuid) (old : StoredSpace) (s : MemorySpaceState) (space : StoredSpace)
    (m : StoredSpaceMember)
    → IsIndexed s
    → get s.spaces_by_id i ≡ some old
    → slug_key space ≡ slug_key old
    → let archived = (archive_space_body i old.organization_id s).1 in
      (get archived.spaces_by_id i ≡ none)
      × (create_space_body space m archived ≡ (err slug_already_exists, archived))
unfolding create_space_body archive_space_body
archive_space-create_space i old s space m inv found same =
    let own : nat_eqb old.organization_id old.organization_id ≡ true =
      ground (arith, beq_refl old.organization_id) in
    let taken : get s.space_id_by_org_slug (slug_key space) ≡ some i =
      ap (get s.space_id_by_org_slug) same ∙ inv.indexed i old found in
    rw (found, archive_space_body, own)
      (ground (arith, get-remove s.spaces_by_id i i, beq_refl i), rw taken refl)
