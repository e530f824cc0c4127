-- ===== src/Attachment/Store.antt =====
-- src/domain/attachment.rs: the trait `AttachmentStore`, as operations on a state of its own.
use opencord_server.Base.{ℕ, Bool, List, Option, Text, Uuid}
use opencord_server.Base.Int.{ℤ}
use opencord_server.Base.Action.{Action}
use opencord_server.Attachment.{Attachment, AttachmentContent, AttachmentError}

pub record AttachmentStore : Type 1 where
  pub State : Type 0
  pub create_attachment : Attachment → Action State AttachmentError (Unit {0})
  pub get_attachment : Uuid → Action State AttachmentError (Option Attachment)
  pub upload_content : Attachment → AttachmentContent → Action State AttachmentError Attachment
  pub content_for_attachment : Uuid → Action State AttachmentError (Option AttachmentContent)
  pub link_attachments_to_message :
      Uuid → List Uuid → Action State AttachmentError (List Attachment)
  pub list_for_message_ids : List Uuid → Action State AttachmentError (List Attachment)
  pub stored_bytes_for_organization : Uuid → Action State AttachmentError ℤ
  pub purge_for_retention : Uuid → Option Text → Bool → Action State AttachmentError ℕ
