-- ===== src/Command.antt =====
-- src/domain/command.rs: application commands, their interactions, and the checks on both.
-- Children: the store, its in-memory implementation, the service, and what holds of them.
pub mod Store
pub mod Memory
pub mod Service
pub mod Marks
pub mod Lifecycle
pub mod Callback
mod Tests
use opencord_server.Base.{
  ℕ, ◌&&◌, ◌||◌, Bool, not, leb, ltb, nat_eqb, if◌then◌else◌, List, [], ◌∷◌, ◌++◌, all, take,
  reverse, Option, none, some, Text, Uuid, text, len, trim, to_ascii_lowercase, is_ascii_digit,
  text_eqb, Result, ok, err,
}
use opencord_server.Base.Int.{ℤ, pos, ltb_ℤ, eqb_ℤ}
use opencord_server.Base.Json.{Value, Values, nil, array, as_array, values_len}
use opencord_server.Base.Map.{is_some}

abbrev pub interaction_type_application_command : ℤ
interaction_type_application_command = pos 2

abbrev pub interaction_type_message_component : ℤ
interaction_type_message_component = pos 3

pub record ApplicationCommand : Type 0 where
  pub id : Uuid
  pub application_id : Uuid
  pub organization_id : Uuid
  pub space_id : Option Uuid
  pub created_by_bot_user_id : Uuid
  pub name : Text
  pub description : Text
  pub kind : ℤ
  pub options : Value
  pub status : Text
  pub created_at : Text
  pub updated_at : Text

pub record CommandInteraction : Type 0 where
  pub id : Uuid
  pub application_id : Uuid
  pub organization_id : Uuid
  pub space_id : Uuid
  pub channel_id : Uuid
  pub interaction_type : ℤ
  pub command_id : Option Uuid
  pub message_id : Option Uuid
  pub invoking_user_id : Uuid
  pub token_hash : Text
  pub token_last_four : Text
  pub status : Text
  pub options : Value
  pub custom_id : Option Text
  pub component_type : Option ℤ
  pub response_message_id : Option Uuid
  pub created_at : Text
  pub responded_at : Option Text

pub record CommandInteractionCreated : Type 0 where
  pub interaction : CommandInteraction
  pub token : Text

-- Of src/domain/bot.rs.
pub record AuthenticatedBot : Type 0 where
  pub application_id : Uuid
  pub organization_id : Uuid
  pub bot_user_id : Uuid
  pub name : Text

pub record CreateApplicationCommandInput : Type 0 where
  pub bot : AuthenticatedBot
  pub space_id : Option Uuid
  pub name : Text
  pub description : Text
  pub kind : Option ℤ
  pub options : Option Value

pub record CreateCommandInteractionInput : Type 0 where
  pub command_id : Uuid
  pub organization_id : Uuid
  pub space_id : Uuid
  pub channel_id : Uuid
  pub invoking_user_id : Uuid
  pub options : Option Value

pub record CreateComponentInteractionInput : Type 0 where
  pub application_id : Uuid
  pub organization_id : Uuid
  pub space_id : Uuid
  pub channel_id : Uuid
  pub message_id : Uuid
  pub invoking_user_id : Uuid
  pub custom_id : Text
  pub component_type : ℤ

pub data CommandError : Type 0 where
  invalid_input : Text → CommandError
  unauthorized not_found already_responded store_unavailable : CommandError

unfoldable pub status_code : CommandError → ℕ
status_code (invalid_input _) = 400
status_code unauthorized = 401
status_code not_found = 404
status_code already_responded = 409
status_code store_unavailable = 500

unfoldable pub error_code : CommandError → Text
error_code (invalid_input _) = text "invalid_request"
error_code unauthorized = text "unauthorized"
error_code not_found = text "command_not_found"
error_code already_responded = text "interaction_already_responded"
error_code store_unavailable = text "command_store_unavailable"

abbrev pub is_name_char : ℕ → Bool
is_name_char c =
    (leb b'a' c && leb c b'z') || (is_ascii_digit c || (nat_eqb c b'_' || nat_eqb c b'-'))

unfoldable pub normalize_command_name : Text → Result CommandError Text
normalize_command_name raw =
    let name = to_ascii_lowercase (trim raw) in
    if not (leb 1 (len name) && leb (len name) 32)
    then err (invalid_input (text "command name must be 1 to 32 characters"))
    else if not (all is_name_char name)
    then err (
        invalid_input
          (text "command name must contain lowercase letters, numbers, underscores, or hyphens"))
    else ok name

unfoldable pub normalize_description : Text → Result CommandError Text
normalize_description raw =
    let description = trim raw in
    if leb 1 (len description) && leb (len description) 100
    then ok description
    else err (invalid_input (text "command description must be 1 to 100 characters"))

abbrev pub unwrap_or {ℓ} : {A : Type ℓ} → A → Option A → A
unwrap_or fallback none = fallback
unwrap_or fallback (some a) = a

unfoldable pub normalize_command_kind : Option ℤ → Result CommandError ℤ
normalize_command_kind kind =
    if eqb_ℤ (unwrap_or (pos 1) kind) (pos 1)
    then ok (pos 1)
    else err (invalid_input (text "only chat input commands are supported"))

abbrev pub empty_array : Value
empty_array = array nil

unfoldable pub normalize_options : Option Value → Result CommandError Value
normalize_options raw =
    let options = unwrap_or empty_array raw in
    elim (as_array options) [
      | none ↦ err (invalid_input (text "command options must be an array"))
      | some values ↦
          if leb (values_len values) 25
          then ok options
          else err (invalid_input (text "command options cannot contain more than 25 entries"))
    ]

unfoldable pub normalize_interaction_options : Option Value → Result CommandError Value
normalize_interaction_options raw =
    let options = unwrap_or empty_array raw in
    if is_some (as_array options)
    then ok options
    else err (invalid_input (text "interaction options must be an array"))

unfoldable pub normalize_component_custom_id : Text → Result CommandError Text
normalize_component_custom_id raw =
    let custom_id = trim raw in
    if leb 1 (len custom_id) && leb (len custom_id) 100
    then ok custom_id
    else err (invalid_input (text "component custom_id must be 1 to 100 characters"))

unfoldable pub normalize_component_type : ℤ → Result CommandError ℤ
normalize_component_type component_type =
    if not (ltb_ℤ component_type (pos 2)) && not (ltb_ℤ (pos 8) component_type)
    then ok component_type
    else err (invalid_input (text "component type must be a Discord message component type"))

abbrev pub token_prefix : Text
token_prefix = text "oci_"

-- `format!("oci_{}", hex::encode(bytes))`, from the hexadecimal digits of the random bytes.
unfoldable pub generate_interaction_token : Text → Text
generate_interaction_token digits = token_prefix ++ digits

unfoldable pub token_last_four : Text → Text
token_last_four token = reverse (take 4 (reverse token))
