-- ===== src/Space/Store.antt =====
-- src/domain/space.rs: the trait `SpaceStore`, as operations on a state of its own.
use opencord_server.Base.{Uuid, List, Option}
use opencord_server.Base.Action.{Action}
use opencord_server.Space.{StoredSpace, StoredSpaceMember, SpaceMembership, SpaceError}

pub record SpaceStore : Type 1 where
  pub State : Type 0
  pub create_space : StoredSpace → StoredSpaceMember → Action State SpaceError (Unit {0})
  pub list_for_user : Uuid → Uuid → Action State SpaceError (List SpaceMembership)
  pub get_for_user : Uuid → Uuid → Action State SpaceError (Option SpaceMembership)
  pub add_member : StoredSpaceMember → Action State SpaceError SpaceMembership
  pub remove_member : Uuid → Uuid → Action State SpaceError (Unit {0})
  pub active_member_user_ids : Uuid → Action State SpaceError (List Uuid)
  pub update_space : SpaceMembership → Action State SpaceError SpaceMembership
  pub archive_space : Uuid → Uuid → Action State SpaceError (Unit {0})
