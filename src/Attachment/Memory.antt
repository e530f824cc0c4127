-- ===== src/Attachment/Memory.antt =====
-- src/repositories/attachment_memory.rs: the in-memory attachment store.
use opencord_server.Base.{
  ℕ, ◌&&◌, ◌||◌, Bool, false, not, nat_eqb, leb, if◌then◌else◌, List, [], ◌∷◌, map, filter, length,
  contains, Option, none, some, Text, Uuid, nat_eq, Result, ok, err, sort_by, text_ltb,
}
use opencord_server.Base.Int.{ℤ, pos, ◌+ℤ◌}
use opencord_server.Base.Action.{Action, Mutex, locked}
use opencord_server.Base.Map.{HashMap, get, insert, contains_key, values}
use opencord_server.Base.Keyed.{remove_all}
use opencord_server.Attachment.{
  Attachment, AttachmentContent, AttachmentError, uploaded, linked, status_eqb, not_found,
  store_unavailable,
}
use opencord_server.Attachment.Store.{AttachmentStore}

pub record MemoryAttachmentState : Type 0 where
  pub attachments_by_id : HashMap Uuid Attachment
  pub content_by_id : HashMap Uuid AttachmentContent

abbrev pub empty_state : MemoryAttachmentState
empty_state = record { attachments_by_id = []; content_by_id = [] }

abbrev pub State : Type 0
State = Mutex MemoryAttachmentState

unfoldable pub create_attachment_body :
    Attachment → Action MemoryAttachmentState AttachmentError (Unit {0})
create_attachment_body attachment s =
    (ok tt, record s { attachments_by_id = insert s.attachments_by_id attachment.id attachment })

unfoldable pub create_attachment : Attachment → Action State AttachmentError (Unit {0})
unfolding create_attachment_body
create_attachment attachment = locked store_unavailable (create_attachment_body attachment)

unfoldable pub get_attachment : Uuid → Action State AttachmentError (Option Attachment)
get_attachment attachment_id =
    locked store_unavailable (λ s. (ok (get s.attachments_by_id attachment_id), s))

abbrev pub as_uploaded : Attachment → Attachment
as_uploaded attachment = record attachment { status = uploaded }

unfoldable pub upload_content_body :
    Attachment → AttachmentContent → Action MemoryAttachmentState AttachmentError Attachment
upload_content_body attachment content s =
    if not (contains_key s.attachments_by_id attachment.id) then (err not_found, s) else (
      ok (as_uploaded attachment),
      record {
        content_by_id = insert s.content_by_id attachment.id content;
        attachments_by_id = insert s.attachments_by_id attachment.id (as_uploaded attachment);
      },
    )

unfoldable pub upload_content :
    Attachment → AttachmentContent → Action State AttachmentError Attachment
unfolding upload_content_body
upload_content attachment content =
    locked store_unavailable (upload_content_body attachment content)

unfoldable pub content_for_attachment :
    Uuid → Action State AttachmentError (Option AttachmentContent)
content_for_attachment attachment_id =
    locked store_unavailable (λ s. (ok (get s.content_by_id attachment_id), s))

abbrev pub as_linked : Uuid → Attachment → Attachment
as_linked message_id attachment = record attachment {
  message_id = some message_id;
  status = linked;
}

-- `attachments.push(attachment.clone())`, before those of the later turns.
abbrev pub push_first :
    {S : Type 0}
    → Attachment
    → Result AttachmentError (List Attachment) × S
    → Result AttachmentError (List Attachment) × S
push_first a (ok found, s) = (ok (a ∷ found), s)
push_first a (err e, s) = (err e, s)

-- The loop: an id that is not there ends it, and what was linked before stays linked.
unfoldable pub link_body :
    Uuid → List Uuid → Action MemoryAttachmentState AttachmentError (List Attachment)
link_body message_id [] s = (ok [], s)
link_body message_id (id ∷ ids) s = elim (get s.attachments_by_id id) [
  | none ↦ (err not_found, s)
  | some attachment ↦ push_first (as_linked message_id attachment) (
      link_body message_id ids (record s {
        attachments_by_id = insert s.attachments_by_id id (as_linked message_id attachment);
      }))
]

unfoldable pub link_attachments_to_message :
    Uuid → List Uuid → Action State AttachmentError (List Attachment)
unfolding link_body
link_attachments_to_message message_id ids = locked store_unavailable (link_body message_id ids)

abbrev pub is_of_message : List Uuid → Attachment → Bool
is_of_message message_ids attachment = elim attachment.message_id [
  | none ↦ false
  | some message_id ↦ contains message_ids message_id
]

unfoldable pub list_for_message_ids : List Uuid → Action State AttachmentError (List Attachment)
list_for_message_ids message_ids = locked store_unavailable (λ s. (
  ok (
      sort_by (λ (a b : Attachment). leb a.id b.id)
        (filter (is_of_message message_ids) (values s.attachments_by_id))),
  s,
))

-- The sum of the sizes; below 2 ^ 39 files of at most 10 MiB it stays an i64.
abbrev pub sum_sizes : List Attachment → ℤ
sum_sizes [] = pos 0
sum_sizes (a ∷ found) = a.size_bytes +ℤ sum_sizes found

abbrev pub is_stored : Uuid → Attachment → Bool
is_stored organization_id a =
    nat_eqb a.organization_id organization_id
    && (status_eqb a.status uploaded || status_eqb a.status linked)

unfoldable pub stored_bytes_for_organization : Uuid → Action State AttachmentError ℤ
stored_bytes_for_organization organization_id =
    locked store_unavailable
      (λ s. (ok (sum_sizes (filter (is_stored organization_id) (values s.attachments_by_id))), s))

-- `is_some_and(|cutoff| time < cutoff)`
abbrev pub before : Option Text → Text → Bool
before none time = false
before (some cutoff) time = text_ltb time cutoff

unfoldable pub is_expired : Uuid → Option Text → Attachment → Bool
is_expired organization_id created_before a =
    nat_eqb a.organization_id organization_id && before created_before a.created_at

unfoldable pub expired_ids : Uuid → Option Text → MemoryAttachmentState → List Uuid
unfolding is_expired
expired_ids organization_id created_before s =
    map (λ (a : Attachment). a.id)
      (filter (is_expired organization_id created_before) (values s.attachments_by_id))

unfoldable pub purge_body :
    Uuid → Option Text → Bool → Action MemoryAttachmentState AttachmentError ℕ
unfolding expired_ids remove_all
purge_body organization_id created_before dry_run s =
    let ids = expired_ids organization_id created_before s in
    (
      ok (length ids),
      if not dry_run
          then record {
            attachments_by_id = remove_all ids s.attachments_by_id;
            content_by_id = remove_all ids s.content_by_id;
          }
          else s,
    )

unfoldable pub purge_for_retention : Uuid → Option Text → Bool → Action State AttachmentError ℕ
unfolding purge_body
purge_for_retention organization_id created_before dry_run =
    locked store_unavailable (purge_body organization_id created_before dry_run)

abbrev pub memory_store : AttachmentStore
memory_store = record {
  State = State;
  create_attachment = create_attachment;
  get_attachment = get_attachment;
  upload_content = upload_content;
  content_for_attachment = content_for_attachment;
  link_attachments_to_message = link_attachments_to_message;
  list_for_message_ids = list_for_message_ids;
  stored_bytes_for_organization = stored_bytes_for_organization;
  purge_for_retention = purge_for_retention;
}
