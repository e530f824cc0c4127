-- ===== src/Space.antt =====
-- src/domain/space.rs: spaces, their members, and the checks on names, slugs and roles.
-- Children: the store, its in-memory implementation, the service, and what they keep true.
pub mod Slug
pub mod Store
pub mod Memory
pub mod Service
pub mod Slugs
pub mod Letters
pub mod Index
pub mod Members
pub mod Created
pub mod Access
pub mod Commands
mod Tests
use opencord_server.Base.{
  ℕ, ◌&&◌, ◌||◌, Bool, leb, if◌then◌else◌, Option, Text, Uuid, text, len, trim, to_ascii_lowercase,
  text_eqb, collapse, Result, ok, err,
}

pub record StoredSpace : Type 0 where
  pub id : Uuid
  pub organization_id : Uuid
  pub slug : Text
  pub name : Text
  pub owner_user_id : Uuid

pub record StoredSpaceMember : Type 0 where
  pub space_id : Uuid
  pub user_id : Uuid
  pub role : Text
  pub status : Text

pub record SpaceMembership : Type 0 where
  pub id : Uuid
  pub organization_id : Uuid
  pub slug : Text
  pub name : Text
  pub role : Text

pub record SpacePatch : Type 0 where
  pub name : Option Text

pub data SpaceError : Type 0 where
  invalid_input : Text → SpaceError
  slug_already_exists not_found store_unavailable : SpaceError

unfoldable pub status_code : SpaceError → ℕ
status_code (invalid_input _) = 400
status_code slug_already_exists = 409
status_code not_found = 404
status_code store_unavailable = 500

unfoldable pub error_code : SpaceError → Text
error_code (invalid_input _) = text "invalid_request"
error_code slug_already_exists = text "space_slug_already_exists"
error_code not_found = text "space_not_found"
error_code store_unavailable = text "store_unavailable"

unfoldable pub normalize_name : Text → Result SpaceError Text
normalize_name raw =
    let name = collapse raw in
    if leb 2 (len name) && leb (len name) 100
    then ok name
    else err (invalid_input (text "space name must be between 2 and 100 characters"))

unfoldable pub normalize_member_role : Text → Result SpaceError Text
normalize_member_role role =
    let r = to_ascii_lowercase (trim role) in
    if text_eqb r (text "member") || text_eqb r (text "guest")
    then ok r
    else err (invalid_input (text "space member role must be member or guest"))
