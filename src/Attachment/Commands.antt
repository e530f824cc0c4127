-- ===== src/Attachment/Commands.antt =====
-- src/domain/attachment.rs over src/repositories/attachment_memory.rs: any sequence of calls of the
-- service, and of purges, on the in-memory store keeps each attachment under its own id.
use opencord_server.Base.{
  ℕ, true, false, Bool, nat_eq, nat_eqb, text_eqb, List, [], ◌∷◌, length, Option, some, Text, Uuid,
  ◌≡◌, sym, inl, inr, Bool-cases, Option-cases,
}
use mathlib.Core.Path.{subst}
use opencord_server.Base.Fallible.{Result-cases}
use opencord_server.Base.Int.{pos, eqb_ℤ}
use opencord_server.Base.Action.{Mutex, healthy, locked, state-pure, state-locked}
use opencord_server.Base.Map.{get, insert, contains_key}
use opencord_server.Base.Keyed.{IsKeyed, insert-IsKeyed, remove_all-IsKeyed}
use opencord_server.Attachment.{
  Attachment, NewAttachment, AttachmentContent, store_unavailable, linked, status_eqb,
  normalize_content_type,
}
use opencord_server.Attachment.Memory
use opencord_server.Attachment.Memory.{
  MemoryAttachmentState, memory_store, empty_state, create_attachment_body, upload_content_body,
  link_body, as_linked, as_uploaded, purge_body, expired_ids, push_first,
}
use opencord_server.Attachment.Service
use opencord_server.Attachment.Service.{new_attachment}
use opencord_server.Attachment.Linking.{push_first-state, link_body-cons, link_first}

abbrev pub id_of : Attachment → Uuid
id_of a = a.id

abbrev pub IsStored : MemoryAttachmentState → Type 0
IsStored s = IsKeyed id_of s.attachments_by_id

create_attachment-IsStored :
    (a : Attachment) (s : MemoryAttachmentState)
    → IsStored s
    → IsStored (create_attachment_body a s).1
unfolding create_attachment_body
create_attachment-IsStored a s inv = insert-IsKeyed id_of s.attachments_by_id a inv

upload_content-IsStored :
    (a : Attachment) (content : AttachmentContent) (s : MemoryAttachmentState)
    → IsStored s
    → IsStored (upload_content_body a content s).1
unfolding upload_content_body
upload_content-IsStored a content s inv =
    elim (Bool-cases (contains_key s.attachments_by_id a.id)) [
      | inl there ↦ rw there (insert-IsKeyed id_of s.attachments_by_id (as_uploaded a) inv)
      | inr missing ↦ rw missing inv
    ]

link_first-IsStored :
    (message_id id : Uuid) (a : Attachment) (s : MemoryAttachmentState)
    → get s.attachments_by_id id ≡ some a
    → IsStored s
    → IsStored (link_first message_id id a s)
link_first-IsStored message_id id a s found inv =
    subst (λ k. IsKeyed id_of (insert s.attachments_by_id k (as_linked message_id a)))
      (inv.own_id id a found)
      (insert-IsKeyed id_of s.attachments_by_id (as_linked message_id a) inv)

link-IsStored :
    (message_id : Uuid) (ids : List Uuid) (s : MemoryAttachmentState)
    → IsStored s
    → IsStored (link_body message_id ids s).1
unfolding link_body
link-IsStored message_id [] s inv = inv
link-IsStored message_id (id ∷ ids) s inv = elim (Option-cases (get s.attachments_by_id id)) [
  | inl missing ↦ rw (missing, link_body) inv
  | inr (a, found) ↦
      let s' = link_first message_id id a s in
      rw
        (
          link_body-cons message_id id ids a s found,
          push_first-state (as_linked message_id a) (link_body message_id ids s'),
        )
        (link-IsStored message_id ids s' (link_first-IsStored message_id id a s found inv))
]

purge-IsStored :
    (organization_id : Uuid) (created : Option Text) (dry_run : Bool) (s : MemoryAttachmentState)
    → IsStored s
    → IsStored (purge_body organization_id created dry_run s).1
unfolding purge_body
purge-IsStored organization_id created true s inv = inv
purge-IsStored organization_id created false s inv =
    remove_all-IsKeyed id_of (expired_ids organization_id created s) s.attachments_by_id inv

pub data Command : Type 0 where
  create : Uuid → Text → NewAttachment → Command
  upload : Attachment → Uuid → Text → List ℕ → Command
  link : Uuid → List Uuid → Command
  purge : Uuid → Option Text → Bool → Command

unfoldable pub run : Command → MemoryAttachmentState → MemoryAttachmentState
run (create id now input) s =
    (Service.create_pending memory_store id now input (healthy s)).1.guarded
run (upload attachment user_id raw bytes) s =
    (Service.upload memory_store attachment user_id raw bytes (healthy s)).1.guarded
run (link message_id ids) s =
    (Service.link_to_message memory_store message_id ids (healthy s)).1.guarded
run (purge organization_id created dry_run) s =
    (Memory.purge_for_retention organization_id created dry_run (healthy s)).1.guarded

run_create-IsStored :
    (id : Uuid) (now : Text) (input : NewAttachment) (s : MemoryAttachmentState)
    → IsStored s
    → IsStored (Service.create_pending memory_store id now input (healthy s)).1.guarded
unfolding Service.create_pending Memory.create_attachment
run_create-IsStored id now input s h = elim (Result-cases (new_attachment id now input)) [
  | inl (e, bad) ↦ rw bad h
  | inr (a, good) ↦ rw good (
      subst (λ (t : Mutex MemoryAttachmentState). IsStored t.guarded)
        (sym
          (state-pure (locked store_unavailable (create_attachment_body a)) (λ _. a) (healthy s)))
        (subst IsStored (sym (state-locked store_unavailable (create_attachment_body a) s))
          (create_attachment-IsStored a s h)))
]

run_upload-IsStored :
    (a : Attachment) (user_id : Uuid) (raw : Text) (bytes : List ℕ) (s : MemoryAttachmentState)
    → IsStored s
    → IsStored (Service.upload memory_store a user_id raw bytes (healthy s)).1.guarded
unfolding Service.upload Memory.upload_content
run_upload-IsStored a user_id raw bytes s h =
    elim (Bool-cases (nat_eqb a.uploader_user_id user_id)) [
      | inr stranger ↦ rw stranger h
      | inl owner ↦ elim (Bool-cases (status_eqb a.status linked)) [
        | inl used ↦ rw (owner, used) h
        | inr free ↦ elim (Bool-cases (eqb_ℤ (pos (length bytes)) a.size_bytes)) [
          | inr wrong ↦ rw (owner, free, wrong) h
          | inl fits ↦ elim (Result-cases (normalize_content_type raw)) [
            | inl (e, bad) ↦ rw (owner, free, fits, bad) h
            | inr (kind, good) ↦ elim (Bool-cases (text_eqb kind a.content_type)) [
              | inr other ↦ rw (owner, free, fits, good, other) h
              | inl same ↦
                  let content : AttachmentContent = record { content_type = kind; bytes = bytes } in
                  rw (owner, free, fits, good, same)
                    (subst IsStored
                      (sym (state-locked store_unavailable (upload_content_body a content) s))
                      (upload_content-IsStored a content s h))
            ]
          ]
        ]
      ]
    ]

pub run-IsStored : (c : Command) (s : MemoryAttachmentState) → IsStored s → IsStored (run c s)
unfolding run Service.link_to_message Memory.link_attachments_to_message Memory.purge_for_retention
run-IsStored (create id now input) s h = run_create-IsStored id now input s h
run-IsStored (upload attachment user_id raw bytes) s h =
    run_upload-IsStored attachment user_id raw bytes s h
run-IsStored (link message_id []) s h = h
run-IsStored (link message_id (id ∷ ids)) s h =
    subst IsStored (sym (state-locked store_unavailable (link_body message_id (id ∷ ids)) s))
      (link-IsStored message_id (id ∷ ids) s h)
run-IsStored (purge organization_id created dry_run) s h =
    subst IsStored
      (sym (state-locked store_unavailable (purge_body organization_id created dry_run) s))
      (purge-IsStored organization_id created dry_run s h)
