-- ===== src/Message.antt =====
-- src/domain/message.rs: messages, and the checks on what they carry.
-- Children: contents and mentions, embeds, the store, its in-memory implementation, the service, and
-- what holds of them.
pub mod Content
pub mod Embed
pub mod Parts
pub mod Again
pub mod Objects
pub mod Fields
pub mod Embeds
pub mod Store
pub mod Memory
pub mod Service
pub mod Commands
pub mod Purge
pub mod Mentions
pub mod Deleted
mod Tests
use opencord_server.Base.{ℕ, Bool, List, Option, Text, Uuid, text}
use opencord_server.Base.Json.{Value}

pub record Message : Type 0 where
  pub id : Uuid
  pub organization_id : Uuid
  pub space_id : Option Uuid
  pub channel_id : Uuid
  pub author_user_id : Uuid
  pub content : Text
  pub content_format : Text
  pub embeds : List Value
  pub components : List Value
  pub webhook_username : Option Text
  pub webhook_avatar_url : Option Text
  pub mention_user_ids : List Uuid
  pub mention_role_ids : List Uuid
  pub mention_everyone : Bool
  pub reply_to_message_id : Option Uuid
  pub edited_at : Option Text
  pub deleted_at : Option Text
  pub created_at : Text

pub record CreateMessageInput : Type 0 where
  pub organization_id : Uuid
  pub space_id : Option Uuid
  pub channel_id : Uuid
  pub author_user_id : Uuid
  pub content : Text
  pub allow_empty_content : Bool
  pub embeds : List Value
  pub components : List Value
  pub webhook_username : Option Text
  pub webhook_avatar_url : Option Text
  pub mention_user_ids : List Uuid
  pub mention_role_ids : List Uuid
  pub mention_everyone : Bool
  pub reply_to_message_id : Option Uuid

pub data MessageError : Type 0 where
  invalid_input : Text → MessageError
  not_found store_unavailable : MessageError

unfoldable pub status_code : MessageError → ℕ
status_code (invalid_input _) = 400
status_code not_found = 404
status_code store_unavailable = 500

unfoldable pub error_code : MessageError → Text
error_code (invalid_input _) = text "invalid_request"
error_code not_found = text "message_not_found"
error_code store_unavailable = text "store_unavailable"
