-- ===== src/Attachment/Service.antt =====
-- src/domain/attachment.rs: `AttachmentService`, over any store.
use opencord_server.Base.{
  ℕ, ◌||◌, Bool, not, ltb, nat_eqb, if◌then◌else◌, List, [], ◌∷◌, length, contains, none, Text,
  Uuid, text, text_eqb, nat_eq, Result, ok, ok_or, is_empty,
}
use opencord_server.Base.Fallible as Fallible
use opencord_server.Base.Int.{pos, eqb_ℤ}
use opencord_server.Base.Map.{is_some}
use opencord_server.Base.Action.{Action, ◌>>=◌, ◌>>◌, lift, pure, fail}
use opencord_server.Attachment.{
  Attachment, NewAttachment, AttachmentContent, AttachmentError, pending, uploaded, linked,
  status_eqb, invalid_input, not_found, max_attachments_per_message, normalize_file_name,
  normalize_content_type, normalize_size,
}
use opencord_server.Attachment.Store.{AttachmentStore}

-- `create_pending` up to the store; `id` is the fresh `ids::new_uuid_v7()`, `now` the printed clock.
unfoldable pub new_attachment : Uuid → Text → NewAttachment → Result AttachmentError Attachment
new_attachment id now input = Fallible.◌>>=◌ (normalize_file_name input.file_name) (λ file_name.
    Fallible.◌>>=◌ (normalize_content_type input.content_type) (λ content_type.
      Fallible.◌>>=◌ (normalize_size input.size_bytes) (λ size_bytes. ok (record {
        id = id;
        organization_id = input.organization_id;
        space_id = input.space_id;
        channel_id = input.channel_id;
        message_id = none;
        uploader_user_id = input.uploader_user_id;
        file_name = file_name;
        content_type = content_type;
        size_bytes = size_bytes;
        status = pending;
        created_at = now;
      }))))

-- The condition of `validate_for_message` on one attachment.
unfoldable pub is_unfit : Uuid → Uuid → Uuid → Uuid → Attachment → Bool
is_unfit organization_id space_id channel_id uploader_user_id a =
    not (nat_eqb a.organization_id organization_id)
    || (not (nat_eqb a.space_id space_id)
        || (not (nat_eqb a.channel_id channel_id)
            || (not (nat_eqb a.uploader_user_id uploader_user_id)
                || (is_some a.message_id || not (status_eqb a.status uploaded)))))

module _ (store : AttachmentStore) where
  open store use {State}

  unfoldable pub create_pending :
      Uuid → Text → NewAttachment → Action State AttachmentError Attachment
  create_pending id now input = do
    attachment ← lift (new_attachment id now input)
    store.create_attachment attachment
    pure attachment

  unfoldable pub get : Uuid → Action State AttachmentError Attachment
  get attachment_id = do found ← store.get_attachment attachment_id; lift (ok_or not_found found)

  unfoldable pub upload :
      Attachment → Uuid → Text → List ℕ → Action State AttachmentError Attachment
  upload attachment uploader_user_id raw bytes =
      if not (nat_eqb attachment.uploader_user_id uploader_user_id)
      then fail not_found
      else if status_eqb attachment.status linked
      then fail (invalid_input (text "attachment is already linked to a message"))
      else if not (eqb_ℤ (pos (length bytes)) attachment.size_bytes)
      then fail (invalid_input (text "attachment upload size must match presign size"))
      else do
        content_type ← lift (normalize_content_type raw)
        if not (text_eqb content_type attachment.content_type)
            then fail
                (invalid_input (text "attachment content type must match presign content type"))
            else store.upload_content attachment
                (record { content_type = content_type; bytes = bytes })

  unfoldable pub content : Uuid → Action State AttachmentError AttachmentContent
  content attachment_id = do
    found ← store.content_for_attachment attachment_id
    lift (ok_or not_found found)

  -- The loop over the ids; `seen` holds those before.
  unfoldable pub validate_ids :
      (Attachment → Bool) → List Uuid → List Uuid → Action State AttachmentError (Unit {0})
  unfolding get
  validate_ids unfit seen [] = pure tt
  validate_ids unfit seen (id ∷ ids) =
      let rest = validate_ids unfit (id ∷ seen) ids in
      if contains seen id
      then fail (invalid_input (text "message attachment ids must be unique"))
      else do
        attachment ← get id
        if unfit attachment
            then fail
                (invalid_input (text "attachments must be uploaded files from the same channel"))
            else rest

  unfoldable pub validate_for_message :
      Uuid → Uuid → Uuid → Uuid → List Uuid → Action State AttachmentError (Unit {0})
  unfolding validate_ids is_unfit
  validate_for_message organization_id space_id channel_id uploader_user_id ids =
      if ltb max_attachments_per_message (length ids)
      then fail (invalid_input (text "message cannot include more than 10 attachments"))
      else validate_ids (is_unfit organization_id space_id channel_id uploader_user_id) [] ids

  unfoldable pub link_to_message : Uuid → List Uuid → Action State AttachmentError (List Attachment)
  link_to_message message_id ids =
      if is_empty ids then pure [] else store.link_attachments_to_message message_id ids

  unfoldable pub list_for_message_ids : List Uuid → Action State AttachmentError (List Attachment)
  list_for_message_ids message_ids = store.list_for_message_ids message_ids
