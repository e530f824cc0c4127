-- ===== src/Space/Created.antt =====
-- What is read back of a space that was just created, and that a normal name stays as it is.
use opencord_server.Base.{
  ◌&&◌, leb, some, Text, Uuid, text_eqb_iff, text_eq, nat_eq, pair_eq, pair_eqb_iff, ok, ◌≡◌, refl,
  arith, Bool-cases, Option-cases, inl, inr, len, collapse, collapse_idem, beq_refl,
}
use opencord_server.Base.Fallible.{Result-cases}
use opencord_server.Base.Map.{get, get-insert}
use opencord_server.Base.Action.{healthy}
use opencord_server.Space.{StoredSpace, StoredSpaceMember, SpaceMembership, normalize_name}
use opencord_server.Space.Slug.{slugify}
use opencord_server.Space.Memory
use opencord_server.Space.Memory.{
  MemorySpaceState, memory_store, owner, active, member_key, slug_key, create_space_body,
  get_for_user_body,
}
use opencord_server.Space.Service

-- A name that `normalize_name` accepted is accepted again and not changed any more.
pub normalize_name_idem :
    (raw : Text) {name : Text} → normalize_name raw ≡ ok name → normalize_name name ≡ ok name
unfolding normalize_name
normalize_name_idem raw h =
    elim (Bool-cases (leb 2 (len (collapse raw)) && leb (len (collapse raw)) 100)) [
      | inl fits ↦
          let e : ok (collapse raw) ≡ ok _ = rw fits at h in
          ground (arith, h, fits, collapse_idem raw)
      | inr not_fit ↦ cc (rw not_fit at h)
    ]

create_space-get_for_user :
    (space : StoredSpace) (m : StoredSpaceMember) (s s' : MemorySpaceState)
    → m.status ≡ active
    → m.space_id ≡ space.id
    → create_space_body space m s ≡ (ok tt, s')
    → get_for_user_body m.user_id space.id s' ≡ some (Memory.membership space m.role)
unfolding create_space_body get_for_user_body
create_space-get_for_user space m s s' here own created =
    elim (Option-cases (get s.space_id_by_org_slug (slug_key space))) [
      | inr (i, taken) ↦ cc (rw (taken, create_space_body) at created)
      | inl free ↦
          let created' = rw (free, create_space_body) at created in
          ground (
            arith,
            created',
            here,
            own,
            get-insert s.members_by_space_user (member_key m) (space.id, m.user_id) m,
            get-insert s.spaces_by_id space.id space.id space,
            pair_eqb_iff (member_key m) (space.id, m.user_id),
            beq_refl space.id,
            text_eqb_iff active active,
          )
    ]

-- A space that the service created over the in-memory store is there for its owner: `get_for_user`
-- returns the very membership that `create` returned.
pub get_for_user-create :
    (id owner_id organization_id : Uuid) (raw : Text) (s s' : MemorySpaceState)
    (r : SpaceMembership)
    → Service.create memory_store id owner_id organization_id raw (healthy s) ≡ (ok r, healthy s')
    → Service.get_for_user memory_store owner_id id (healthy s') ≡ (ok r, healthy s')
unfolding create_space_body Service.create Memory.create_space Service.get_for_user
    Memory.get_for_user
get_for_user-create id owner_id organization_id raw s s' r h =
    elim (Result-cases (normalize_name raw)) [
      | inl (e, bad) ↦ cc (rw bad at h)
      | inr (name, good) ↦ elim (Result-cases (slugify name)) [
        | inl (e, bad) ↦ cc (rw (good, bad) at h)
        | inr (slug, good') ↦
            let space : StoredSpace = record {
              id = id;
              organization_id = organization_id;
              slug = slug;
              name = name;
              owner_user_id = owner_id;
            } in
            let m : StoredSpaceMember = record {
              space_id = id;
              user_id = owner_id;
              role = owner;
              status = active;
            } in
            elim (Option-cases (get s.space_id_by_org_slug (slug_key space))) [
              | inr (i, taken) ↦ cc (rw (good, good', taken) at h)
              | inl free ↦
                  let h' = rw (good, good', free) at h in
                  let created : create_space_body space m s ≡ (ok tt, s') =
                    rw free (ground (arith, h')) in
                  let found = create_space-get_for_user space m s s' refl refl created in
                  rw found (ground (arith, h'))
            ]
      ]
    ]
