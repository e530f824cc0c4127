-- ===== src/Attachment.antt =====
-- src/domain/attachment.rs: attachments, and the checks on names, media types and sizes.
-- Children: the store, its in-memory implementation, the service, and what holds of them.
pub mod Store
pub mod Memory
pub mod Service
pub mod Linking
pub mod Commands
mod Tests
use opencord_server.Base.{
  ℕ, ◌&&◌, ◌||◌, Bool, true, false, not, leb, ltb, nat_eqb, if◌then◌else◌, List, any, Option, Text,
  Uuid, text, len, trim, is_empty, to_ascii_lowercase, text_eqb, Result, ok, err,
}
use opencord_server.Base.Int.{ℤ, pos, ltb_ℤ}

pub data AttachmentStatus : Type 0 where
  pending uploaded linked : AttachmentStatus

pub record Attachment : Type 0 where
  pub id : Uuid
  pub organization_id : Uuid
  pub space_id : Uuid
  pub channel_id : Uuid
  pub message_id : Option Uuid
  pub uploader_user_id : Uuid
  pub file_name : Text
  pub content_type : Text
  pub size_bytes : ℤ
  pub status : AttachmentStatus
  pub created_at : Text

pub record NewAttachment : Type 0 where
  pub organization_id : Uuid
  pub space_id : Uuid
  pub channel_id : Uuid
  pub uploader_user_id : Uuid
  pub file_name : Text
  pub content_type : Text
  pub size_bytes : ℤ

pub record AttachmentContent : Type 0 where
  pub content_type : Text
  pub bytes : List ℕ

pub data AttachmentError : Type 0 where
  invalid_input : Text → AttachmentError
  not_found store_unavailable : AttachmentError

unfoldable pub status_code : AttachmentError → ℕ
status_code (invalid_input _) = 400
status_code not_found = 404
status_code store_unavailable = 500

unfoldable pub error_code : AttachmentError → Text
error_code (invalid_input _) = text "invalid_request"
error_code not_found = text "attachment_not_found"
error_code store_unavailable = text "store_unavailable"

unfoldable pub as_str : AttachmentStatus → Text
as_str pending = text "pending"
as_str uploaded = text "uploaded"
as_str linked = text "linked"

unfoldable pub parse : Text → Result AttachmentError AttachmentStatus
parse value =
    if text_eqb value (text "pending")
    then ok pending
    else if text_eqb value (text "uploaded")
    then ok uploaded
    else if text_eqb value (text "linked")
    then ok linked
    else err store_unavailable

abbrev pub status_eqb : AttachmentStatus → AttachmentStatus → Bool
status_eqb pending pending = true
status_eqb uploaded uploaded = true
status_eqb linked linked = true
status_eqb _ _ = false

abbrev pub max_attachment_size_bytes : ℤ
max_attachment_size_bytes = pos 10485760

abbrev pub max_attachments_per_message : ℕ
max_attachments_per_message = 10

abbrev pub has_slash : Text → Bool
has_slash s = any (nat_eqb b'/') s

unfoldable pub normalize_file_name : Text → Result AttachmentError Text
normalize_file_name raw =
    let file_name = trim raw in
    if is_empty file_name || (ltb 255 (len file_name) || has_slash file_name)
    then err (
        invalid_input
          (text "attachment file name must be 1 to 255 characters without path separators"))
    else ok file_name

unfoldable pub normalize_content_type : Text → Result AttachmentError Text
normalize_content_type raw =
    let content_type = to_ascii_lowercase (trim raw) in
    if is_empty content_type || (ltb 120 (len content_type) || not (has_slash content_type))
    then err (invalid_input (text "attachment content type must be a valid media type"))
    else ok content_type

unfoldable pub normalize_size : ℤ → Result AttachmentError ℤ
normalize_size size_bytes =
    if ltb_ℤ (pos 0) size_bytes && not (ltb_ℤ max_attachment_size_bytes size_bytes)
    then ok size_bytes
    else err (invalid_input (text "attachment size must be between 1 byte and 10 MiB"))
