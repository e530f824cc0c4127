-- ===== src/Permission.antt =====
-- src/domain/permission.rs: the permissions and their bits, roles, assignments and overrides.
-- Children: the evaluation of overrides, the checks on input, the store and the service.
pub mod Evaluate
pub mod Input
pub mod Store
pub mod Memory
pub mod Service
pub mod Overrides
pub mod Names
pub mod Assigned
pub mod Access
pub mod Roles
mod Tests
use Prim.Native.Nat.{bit_and, bit_or}
use opencord_server.Base.{
  ℕ, ◌^◌, Bool, not, nat_eqb, if◌then◌else◌, List, [], ◌∷◌, map, filter, Option, Text, Uuid, text,
  trim, to_ascii_uppercase, to_ascii_lowercase, text_eqb, Result, ok, err,
}
use opencord_server.Base.Int.{ℤ}

pub data Permission : Type 0 where
  view_channel send_messages manage_messages manage_channels manage_roles : Permission
  invite_members manage_space connect_voice speak share_screen use_video : Permission

-- Which bit stands for a permission: the shift of its constant.
abbrev pub index : Permission → ℕ
index view_channel = 0
index send_messages = 1
index manage_messages = 2
index manage_channels = 3
index manage_roles = 4
index invite_members = 5
index manage_space = 6
index connect_voice = 7
index speak = 8
index share_screen = 9
index use_video = 10

-- `1 << n`, the constants VIEW_CHANNEL to USE_VIDEO.
abbrev pub bit : Permission → ℕ
bit p = 2 ^ index p

abbrev pub permissions : List Permission
permissions =
    view_channel ∷ send_messages ∷ manage_messages ∷ manage_channels ∷ manage_roles ∷ invite_members
    ∷ manage_space ∷ connect_voice ∷ speak ∷ share_screen ∷ use_video ∷ []

-- ALL_MINIMAL_PERMISSIONS: the `|` of every constant.
abbrev pub all_minimal_permissions : ℕ
all_minimal_permissions =
    bit_or
      (bit_or
        (bit_or
          (bit_or
            (bit_or
              (bit_or
                (bit_or
                  (bit_or
                    (bit_or (bit_or (bit view_channel) (bit send_messages)) (bit manage_messages))
                    (bit manage_channels))
                  (bit manage_roles))
                (bit invite_members))
              (bit manage_space))
            (bit connect_voice))
          (bit speak))
        (bit share_screen))
      (bit use_video)

abbrev pub as_str : Permission → Text
as_str view_channel = text "VIEW_CHANNEL"
as_str send_messages = text "SEND_MESSAGES"
as_str manage_messages = text "MANAGE_MESSAGES"
as_str manage_channels = text "MANAGE_CHANNELS"
as_str manage_roles = text "MANAGE_ROLES"
as_str invite_members = text "INVITE_MEMBERS"
as_str manage_space = text "MANAGE_SPACE"
as_str connect_voice = text "CONNECT_VOICE"
as_str speak = text "SPEAK"
as_str share_screen = text "SHARE_SCREEN"
as_str use_video = text "USE_VIDEO"

pub data PermissionError : Type 0 where
  invalid_input : Text → PermissionError
  forbidden role_already_exists role_not_found store_unavailable : PermissionError

-- The arms of the match in `parse`, in order.
unfoldable pub parse_name : Text → Result PermissionError Permission
parse_name v =
    if text_eqb v (text "VIEW_CHANNEL")
    then ok view_channel
    else if text_eqb v (text "SEND_MESSAGES")
    then ok send_messages
    else if text_eqb v (text "MANAGE_MESSAGES")
    then ok manage_messages
    else if text_eqb v (text "MANAGE_CHANNELS")
    then ok manage_channels
    else if text_eqb v (text "MANAGE_ROLES")
    then ok manage_roles
    else if text_eqb v (text "INVITE_MEMBERS")
    then ok invite_members
    else if text_eqb v (text "MANAGE_SPACE")
    then ok manage_space
    else if text_eqb v (text "CONNECT_VOICE")
    then ok connect_voice
    else if text_eqb v (text "SPEAK")
    then ok speak
    else if text_eqb v (text "SHARE_SCREEN")
    then ok share_screen
    else if text_eqb v (text "USE_VIDEO")
    then ok use_video
    else err (invalid_input (text "permission name is not supported"))

unfoldable pub parse : Text → Result PermissionError Permission
unfolding parse_name
parse value = parse_name (to_ascii_uppercase (trim value))

unfoldable pub has_bit : ℕ → Permission → Bool
has_bit bitset p = not (nat_eqb (bit_and bitset (bit p)) 0)

unfoldable pub permission_names : ℕ → List Text
unfolding has_bit
permission_names bitset = map as_str (filter (has_bit bitset) permissions)

pub record Role : Type 0 where
  pub id : Uuid
  pub organization_id : Uuid
  pub space_id : Uuid
  pub name : Text
  pub color : Option Text
  pub position : ℤ
  pub permissions_bitset : ℕ

pub record RoleAssignment : Type 0 where
  pub space_id : Uuid
  pub role_id : Uuid
  pub user_id : Uuid
  pub assigned_by_user_id : Uuid

pub data PermissionTargetKind : Type 0 where
  role_target member_target : PermissionTargetKind

abbrev pub target_kind_str : PermissionTargetKind → Text
target_kind_str role_target = text "role"
target_kind_str member_target = text "member"

unfoldable pub parse_target_kind : Text → Result PermissionError PermissionTargetKind
parse_target_kind value =
    let v = to_ascii_lowercase (trim value) in
    if text_eqb v (text "role")
    then ok role_target
    else if text_eqb v (text "member")
    then ok member_target
    else err (invalid_input (text "permission override target_kind must be role or member"))

pub record ChannelPermissionOverride : Type 0 where
  pub channel_id : Uuid
  pub target_kind : PermissionTargetKind
  pub target_id : Uuid
  pub allow_bitset : ℕ
  pub deny_bitset : ℕ

pub record AssignedRole : Type 0 where
  pub id : Uuid
  pub permissions_bitset : ℕ

-- `status_code`, as the number of the HTTP status.
unfoldable pub status_code : PermissionError → ℕ
status_code (invalid_input _) = 400
status_code forbidden = 403
status_code role_already_exists = 409
status_code role_not_found = 404
status_code store_unavailable = 500

unfoldable pub error_code : PermissionError → Text
error_code (invalid_input _) = text "invalid_request"
error_code forbidden = text "forbidden"
error_code role_already_exists = text "role_already_exists"
error_code role_not_found = text "role_not_found"
error_code store_unavailable = text "permission_store_unavailable"
