-- ===== src/Space/Memory.antt =====
-- src/repositories/space_memory.rs: the in-memory space store.
use opencord_server.Base.{
  ◌&&◌, Bool, false, not, nat_eqb, if◌then◌else◌, List, [], map, filter, filter_map, Option, none,
  some, Text, Uuid, text, text_eqb, nat_eq, text_eq, pair_eq, Result, ok, err, sort_by, text_leb,
}
use opencord_server.Base.Action.{Action, Mutex, locked}
use opencord_server.Base.Map.{HashMap, get, insert, remove, contains_key, values}
use opencord_server.Space.{
  StoredSpace, StoredSpaceMember, SpaceMembership, SpaceError, slug_already_exists, not_found,
  store_unavailable,
}
use opencord_server.Space.Store.{SpaceStore}

pub record MemorySpaceState : Type 0 where
  pub spaces_by_id : HashMap Uuid StoredSpace
  pub space_id_by_org_slug : HashMap (Uuid × Text) Uuid
  pub members_by_space_user : HashMap (Uuid × Uuid) StoredSpaceMember

abbrev pub empty_state : MemorySpaceState
empty_state = record { spaces_by_id = []; space_id_by_org_slug = []; members_by_space_user = [] }

abbrev pub State : Type 0
State = Mutex MemorySpaceState

abbrev pub slug_key : StoredSpace → Uuid × Text
slug_key space = (space.organization_id, space.slug)

abbrev pub membership_key : SpaceMembership → Uuid × Text
membership_key m = (m.organization_id, m.slug)

abbrev pub member_key : StoredSpaceMember → Uuid × Uuid
member_key m = (m.space_id, m.user_id)

abbrev pub active : Text
active = text "active"

abbrev pub owner : Text
owner = text "owner"

abbrev pub is_active : StoredSpaceMember → Bool
is_active member = text_eqb member.status active

-- The `SpaceMembership` that several operations build.
abbrev pub membership : StoredSpace → Text → SpaceMembership
membership space role = record {
  id = space.id;
  organization_id = space.organization_id;
  slug = space.slug;
  name = space.name;
  role = role;
}

unfoldable pub create_space_body :
    StoredSpace → StoredSpaceMember → Action MemorySpaceState SpaceError (Unit {0})
create_space_body space owner_member s =
    if contains_key s.space_id_by_org_slug (slug_key space) then (err slug_already_exists, s) else (
      ok tt,
      record {
        space_id_by_org_slug = insert s.space_id_by_org_slug (slug_key space) space.id;
        members_by_space_user =
            insert s.members_by_space_user (member_key owner_member) owner_member;
        spaces_by_id = insert s.spaces_by_id space.id space;
      },
    )

unfoldable pub create_space : StoredSpace → StoredSpaceMember → Action State SpaceError (Unit {0})
unfolding create_space_body
create_space space owner_member = locked store_unavailable (create_space_body space owner_member)

abbrev space_of_member : Uuid → MemorySpaceState → StoredSpaceMember → Option SpaceMembership
space_of_member organization_id s member = elim (get s.spaces_by_id member.space_id) [
  | none ↦ none
  | some space ↦
      if nat_eqb space.organization_id organization_id
      then some (membership space member.role)
      else none
]

unfoldable pub list_for_user_body : Uuid → Uuid → MemorySpaceState → List SpaceMembership
list_for_user_body user_id organization_id s =
    sort_by (λ (a b : SpaceMembership). text_leb a.name b.name)
      (filter_map (space_of_member organization_id s)
        (filter (λ m. nat_eqb m.user_id user_id && is_active m) (values s.members_by_space_user)))

unfoldable pub list_for_user : Uuid → Uuid → Action State SpaceError (List SpaceMembership)
unfolding list_for_user_body
list_for_user user_id organization_id =
    locked store_unavailable (λ s. (ok (list_for_user_body user_id organization_id s), s))

abbrev membership_of : Uuid → MemorySpaceState → StoredSpaceMember → Option SpaceMembership
membership_of space_id s member = elim (get s.spaces_by_id space_id) [
  | none ↦ none
  | some space ↦ some (membership space member.role)
]

unfoldable pub get_for_user_body : Uuid → Uuid → MemorySpaceState → Option SpaceMembership
get_for_user_body user_id space_id s = elim (get s.members_by_space_user (space_id, user_id)) [
  | none ↦ none
  | some member ↦ if not (is_active member) then none else membership_of space_id s member
]

unfoldable pub get_for_user : Uuid → Uuid → Action State SpaceError (Option SpaceMembership)
unfolding get_for_user_body
get_for_user user_id space_id =
    locked store_unavailable (λ s. (ok (get_for_user_body user_id space_id s), s))

-- `entry(key).and_modify(…).or_insert(member)`: the member that stands there afterwards.
unfoldable pub merge_member : StoredSpaceMember → Option StoredSpaceMember → StoredSpaceMember
merge_member member none = member
merge_member member (some existing) = record existing {
  role = if not (text_eqb existing.role owner) then member.role else existing.role;
  status = active;
}

unfoldable pub add_member_body :
    StoredSpaceMember → Action MemorySpaceState SpaceError SpaceMembership
unfolding merge_member
add_member_body member s = elim (get s.spaces_by_id member.space_id) [
  | none ↦ (err not_found, s)
  | some space ↦
      let stored_member = merge_member member (get s.members_by_space_user (member_key member)) in
      (
        ok (membership space stored_member.role),
        record s {
          members_by_space_user = insert s.members_by_space_user (member_key member) stored_member;
        },
      )
]

unfoldable pub add_member : StoredSpaceMember → Action State SpaceError SpaceMembership
unfolding add_member_body
add_member member = locked store_unavailable (add_member_body member)

unfoldable pub remove_member_body : Uuid → Uuid → Action MemorySpaceState SpaceError (Unit {0})
remove_member_body space_id user_id s = elim (get s.members_by_space_user (space_id, user_id)) [
  | none ↦ (err not_found, s)
  | some member ↦ if not (is_active member) then (err not_found, s) else (
    ok tt,
    record s {
      members_by_space_user =
          insert s.members_by_space_user (space_id, user_id)
            (record member { status = text "inactive" });
    },
  )
]

unfoldable pub remove_member : Uuid → Uuid → Action State SpaceError (Unit {0})
unfolding remove_member_body
remove_member space_id user_id = locked store_unavailable (remove_member_body space_id user_id)

unfoldable pub active_member_user_ids_body : Uuid → MemorySpaceState → Result SpaceError (List Uuid)
active_member_user_ids_body space_id s =
    if not (contains_key s.spaces_by_id space_id)
    then err not_found
    else ok (
        map (λ (m : StoredSpaceMember). m.user_id)
          (filter (λ m. nat_eqb m.space_id space_id && is_active m)
            (values s.members_by_space_user)))

unfoldable pub active_member_user_ids : Uuid → Action State SpaceError (List Uuid)
unfolding active_member_user_ids_body
active_member_user_ids space_id =
    locked store_unavailable (λ s. (active_member_user_ids_body space_id s, s))

-- `is_some_and(|existing_id| *existing_id != id)`
abbrev pub taken_by_other : Uuid → Option Uuid → Bool
taken_by_other id none = false
taken_by_other id (some existing_id) = not (nat_eqb existing_id id)

abbrev pub renamed : SpaceMembership → StoredSpace → StoredSpace
renamed m previous = record {
  id = m.id;
  organization_id = m.organization_id;
  slug = m.slug;
  name = m.name;
  owner_user_id = previous.owner_user_id;
}

unfoldable pub update_space_body :
    SpaceMembership → Action MemorySpaceState SpaceError SpaceMembership
update_space_body m s = elim (get s.spaces_by_id m.id) [
  | none ↦ (err not_found, s)
  | some previous ↦
      if taken_by_other m.id (get s.space_id_by_org_slug (membership_key m))
      then (err slug_already_exists, s)
      else (
        ok m,
        record s {
          space_id_by_org_slug =
              insert (remove s.space_id_by_org_slug (slug_key previous)) (membership_key m) m.id;
          spaces_by_id = insert s.spaces_by_id m.id (renamed m previous);
        },
      )
]

unfoldable pub update_space : SpaceMembership → Action State SpaceError SpaceMembership
unfolding update_space_body
update_space m = locked store_unavailable (update_space_body m)

unfoldable pub archive_space_body : Uuid → Uuid → Action MemorySpaceState SpaceError (Unit {0})
archive_space_body space_id organization_id s = elim (get s.spaces_by_id space_id) [
  | none ↦ (err not_found, s)
  | some space ↦
      if not (nat_eqb space.organization_id organization_id)
      then (err not_found, s)
      else (ok tt, record s { spaces_by_id = remove s.spaces_by_id space_id })
]

unfoldable pub archive_space : Uuid → Uuid → Action State SpaceError (Unit {0})
unfolding archive_space_body
archive_space space_id organization_id =
    locked store_unavailable (archive_space_body space_id organization_id)

abbrev pub memory_store : SpaceStore
memory_store = record {
  State = State;
  create_space = create_space;
  list_for_user = list_for_user;
  get_for_user = get_for_user;
  add_member = add_member;
  remove_member = remove_member;
  active_member_user_ids = active_member_user_ids;
  update_space = update_space;
  archive_space = archive_space;
}
