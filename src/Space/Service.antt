-- ===== src/Space/Service.antt =====
-- src/domain/space.rs: `SpaceService`, over any store.
use opencord_server.Base.{
  if◌then◌else◌, List, none, some, Text, Uuid, text, text_eqb, Result, ok, ok_or,
}
use opencord_server.Base.Fallible as Fallible
use opencord_server.Base.Action.{Action, ◌>>=◌, ◌>>◌, lift, pure, fail}
use opencord_server.Space.{
  StoredSpace, StoredSpaceMember, SpaceMembership, SpacePatch, SpaceError, invalid_input, not_found,
  normalize_name, normalize_member_role,
}
use opencord_server.Space.Slug.{slugify}
use opencord_server.Space.Store.{SpaceStore}

-- `update` up to the store: the membership that is written.
unfoldable pub patched : SpaceMembership → SpacePatch → Result SpaceError SpaceMembership
patched existing patch = elim patch.name [
  | none ↦ ok existing
  | some raw ↦ Fallible.◌>>=◌ (normalize_name raw) (λ name.
      Fallible.◌>>=◌ (slugify name) (λ slug. ok (record existing { slug = slug; name = name })))
]

module _ (store : SpaceStore) where
  open store use {State}

  -- `id` is the fresh `ids::new_uuid_v7()`.
  unfoldable pub create : Uuid → Uuid → Uuid → Text → Action State SpaceError SpaceMembership
  create id owner_id organization_id raw = do
    name ← lift (normalize_name raw)
    slug ← lift (slugify name)
    let space : StoredSpace = record {
      id = id;
      organization_id = organization_id;
      slug = slug;
      name = name;
      owner_user_id = owner_id;
    }
    let owner_member : StoredSpaceMember = record {
      space_id = id;
      user_id = owner_id;
      role = text "owner";
      status = text "active";
    }
    store.create_space space owner_member
    pure (record {
      id = id;
      organization_id = organization_id;
      slug = slug;
      name = name;
      role = text "owner";
    })

  unfoldable pub list_for_user : Uuid → Uuid → Action State SpaceError (List SpaceMembership)
  list_for_user user_id organization_id = store.list_for_user user_id organization_id

  unfoldable pub get_for_user : Uuid → Uuid → Action State SpaceError SpaceMembership
  get_for_user user_id space_id = do
    found ← store.get_for_user user_id space_id
    lift (ok_or not_found found)

  unfoldable pub add_member : Uuid → Uuid → Text → Action State SpaceError SpaceMembership
  add_member space_id user_id raw = do
    role ← lift (normalize_member_role raw)
    store.add_member
        (record { space_id = space_id; user_id = user_id; role = role; status = text "active" })

  unfoldable pub remove_member : Uuid → Uuid → Action State SpaceError SpaceMembership
  unfolding get_for_user
  remove_member space_id user_id = do
    membership ← get_for_user user_id space_id
    if text_eqb membership.role (text "owner")
        then fail (invalid_input (text "space owner cannot be removed"))
        else do store.remove_member space_id user_id; pure membership

  unfoldable pub active_member_user_ids : Uuid → Action State SpaceError (List Uuid)
  active_member_user_ids space_id = store.active_member_user_ids space_id

  unfoldable pub update : SpaceMembership → SpacePatch → Action State SpaceError SpaceMembership
  unfolding patched
  update existing patch = do next ← lift (patched existing patch); store.update_space next

  unfoldable pub delete : SpaceMembership → Action State SpaceError SpaceMembership
  delete existing = do store.archive_space existing.id existing.organization_id; pure existing
