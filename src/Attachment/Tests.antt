-- ===== src/Attachment/Tests.antt =====
-- Attachments on concrete inputs.
use opencord_server.Base.{
  map, false, some, List, [], ◌∷◌, none, text, nat_eq, ok, ◌≡◌, refl, if◌then◌else◌, contains, Uuid,
}
use mathlib.Core.Option
use opencord_server.Base.Int.{pos}
use opencord_server.Base.Action.{healthy}
use opencord_server.Base.Map.{get}
use opencord_server.Attachment.{Attachment, uploaded}
use opencord_server.Attachment.Memory
use opencord_server.Attachment.Memory.{MemoryAttachmentState, memory_store, as_linked}
use opencord_server.Attachment.Service
use opencord_server.Attachment.Linking.{taken_by, taken, link_to_message-validate_for_message}

abbrev picture : Uuid → Attachment
picture id = record {
  id = id;
  organization_id = 7;
  space_id = 5;
  channel_id = 3;
  message_id = none;
  uploader_user_id = 9;
  file_name = text "a.png";
  content_type = text "image/png";
  size_bytes = pos 10;
  status = uploaded;
  created_at = text "2024";
}

abbrev two : MemoryAttachmentState
two = record { attachments_by_id = (1, picture 1) ∷ (2, picture 2) ∷ []; content_by_id = [] }

link_to_message-validate_for_message_example :
    let (r, t) = Service.link_to_message memory_store 40 (2 ∷ 1 ∷ []) (healthy two) in
    (healthy two ≡ healthy two)
    × ((xs : List Attachment) × (r ≡ ok xs) × (map some xs ≡ taken 40 (2 ∷ 1 ∷ []) two))
    × ((j : Uuid)
        → get t.guarded.attachments_by_id j ≡ (
            if contains (2 ∷ 1 ∷ []) j
            then Option.map (taken_by 40) (get two.attachments_by_id j)
            else get two.attachments_by_id j))
    × (t.guarded.content_by_id ≡ two.content_by_id)
    × (t.poisoned ≡ false)
unfolding Service.validate_for_message Service.validate_ids Service.get Service.is_unfit
    Memory.get_attachment get
link_to_message-validate_for_message_example =
    link_to_message-validate_for_message 7 5 3 9 40 2 (1 ∷ []) two (healthy two) refl
