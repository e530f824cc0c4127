-- ===== src/Message/Deleted.antt =====
-- Deleted messages of src/domain/message.rs over src/repositories/message_memory.rs.
use opencord_server.Base.{
  false, [], none, some, Text, Uuid, nat_eq, ok, err, ◌≡◌, ◌≢◌, refl, arith, beq_refl,
}
use opencord_server.Base.Time.{Chrono}
use opencord_server.Base.Action.{healthy}
use opencord_server.Base.Map.{get, insert, get-insert}
use opencord_server.Message.{Message, not_found}
use opencord_server.Message.Content.{normalize_content, normalize_mention_ids}
use opencord_server.Message.Memory
use opencord_server.Message.Memory.{
  MemoryMessageState, State, memory_store, delete_message_body, update_message_body, if_live,
}
use opencord_server.Message.Service
use opencord_server.Message.Service.{patched, patch_components, edited, deleted}

module _ (chrono : Chrono) (now : chrono.DateTime) (m old : Message) (s : MemoryMessageState)
    (stored : get s.messages_by_id m.id ≡ some old) where
  abbrev after_delete : State
  after_delete = (Service.delete chrono memory_store now m (healthy s)).1

  -- A message that is stored and is deleted through the service over the in-memory store, with a lock
  -- that is not poisoned, is not found any more; every other id keeps what it had.
  pub get-delete :
      ((Service.get memory_store m.id after_delete).0 ≡ err not_found)
      × ((id : Uuid)
          → m.id ≢ id
          → get after_delete.guarded.messages_by_id id ≡ get s.messages_by_id id)
  unfolding Service.delete Service.get Memory.delete_message Memory.get_message delete_message_body
  get-delete =
      let gone = deleted (chrono.to_rfc3339 now) m in
      (
        ground (arith, stored, get-insert s.messages_by_id m.id m.id gone, beq_refl m.id),
        λ id ne. ground (arith, stored, get-insert s.messages_by_id m.id id gone),
      )

  -- With an in-memory store, an update by a copy of the message from before the deletion, with a
  -- content that is accepted, brings a deleted message back.
  pub get-update-delete :
      (raw content : Text)
      → m.deleted_at ≡ none
      → normalize_content raw false ≡ ok content
      → let s' = (Service.update memory_store m raw after_delete).1 in
        (back : Message) × ((Service.get memory_store m.id s').0 ≡ ok back)
        × (back.content ≡ content)
  unfolding Service.delete Service.get Service.update Memory.delete_message Memory.get_message
      Memory.update_message patched delete_message_body update_message_body
  get-update-delete raw content live good =
      let gone = deleted (chrono.to_rfc3339 now) m in
      let back = edited (record m {
        content = content;
        mention_user_ids = normalize_mention_ids [];
        mention_role_ids = normalize_mention_ids [];
        mention_everyone = false;
      }) in
      let still : get (insert s.messages_by_id m.id gone) m.id ≡ some gone =
        ground (arith, get-insert s.messages_by_id m.id m.id gone, beq_refl m.id) in
      let found : get (insert (insert s.messages_by_id m.id gone) m.id back) m.id ≡ some back =
        ground
          (arith, get-insert (insert s.messages_by_id m.id gone) m.id m.id back, beq_refl m.id) in
      (back, rw (stored, good, still, found, live), refl)
