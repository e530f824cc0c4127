-- ===== src/Message/Commands.antt =====
-- src/domain/message.rs over src/repositories/message_memory.rs: any sequence of calls of the
-- service, and of purges, on the in-memory store keeps each message under its own id.
use opencord_server.Base.{
  true, false, Bool, nat_eq, List, [], ◌∷◌, Option, Text, Uuid, sym, inl, inr, Bool-cases,
}
use mathlib.Core.Path.{subst}
use opencord_server.Base.Fallible.{Result-cases}
use opencord_server.Base.Time.{Chrono}
use opencord_server.Base.Json.{Value}
use opencord_server.Base.Action.{Mutex, healthy, locked, state-pure, state-locked}
use opencord_server.Base.Map.{contains_key}
use opencord_server.Base.Keyed.{IsKeyed, empty-IsKeyed, insert-IsKeyed, remove_all-IsKeyed}
use opencord_server.Message.{Message, CreateMessageInput, store_unavailable}
use opencord_server.Message.Memory
use opencord_server.Message.Memory.{
  MemoryMessageState, memory_store, empty_state, create_message_body, update_message_body,
  delete_message_body, purge_body, expired_ids,
}
use opencord_server.Message.Service
use opencord_server.Message.Service.{new_message, patched, deleted}

abbrev pub IsStored : MemoryMessageState → Type 0
IsStored s = IsKeyed (λ (m : Message). m.id) s.messages_by_id

create_message-IsStored :
    (m : Message) (s : MemoryMessageState) → IsStored s → IsStored (create_message_body m s).1
unfolding create_message_body
create_message-IsStored m s inv = insert-IsKeyed (λ (m : Message). m.id) s.messages_by_id m inv

update_message-IsStored :
    (m : Message) (s : MemoryMessageState) → IsStored s → IsStored (update_message_body m s).1
unfolding update_message_body
update_message-IsStored m s inv = elim (Bool-cases (contains_key s.messages_by_id m.id)) [
  | inl there ↦ rw there (insert-IsKeyed (λ (m : Message). m.id) s.messages_by_id m inv)
  | inr missing ↦ rw missing inv
]

delete_message-IsStored :
    (m : Message) (s : MemoryMessageState) → IsStored s → IsStored (delete_message_body m s).1
unfolding delete_message_body
delete_message-IsStored m s inv = elim (Bool-cases (contains_key s.messages_by_id m.id)) [
  | inl there ↦ rw there (insert-IsKeyed (λ (m : Message). m.id) s.messages_by_id m inv)
  | inr missing ↦ rw missing inv
]

pub purge-IsStored :
    (organization_id : Uuid) (created deleted : Option Text) (dry_run : Bool)
    (s : MemoryMessageState)
    → IsStored s
    → IsStored (purge_body organization_id created deleted dry_run s).1
unfolding purge_body
purge-IsStored organization_id created deleted true s inv = inv
purge-IsStored organization_id created deleted false s inv =
    remove_all-IsKeyed (λ (m : Message). m.id) (expired_ids organization_id created deleted s)
      s.messages_by_id inv

module _ (chrono : Chrono) where
  pub data Command : Type 0 where
    create : Uuid → chrono.DateTime → CreateMessageInput → Command
    update : Message → Text → List Uuid → List Uuid → Bool → Option (List Value) → Command
    delete : chrono.DateTime → Message → Command
    purge : Uuid → Option Text → Option Text → Bool → Command

  unfoldable pub run : Command → MemoryMessageState → MemoryMessageState
  run (create id now input) s =
      (Service.create_with_embeds chrono memory_store id now input (healthy s)).1.guarded
  run (update message content user_ids role_ids everyone components) s =
      (Service.update_with_mentions memory_store message content user_ids role_ids everyone
        components (healthy s)).1.guarded
  run (delete now message) s =
      (Service.delete chrono memory_store now message (healthy s)).1.guarded
  run (purge organization_id created deleted dry_run) s =
      (Memory.purge_for_retention organization_id created deleted dry_run (healthy s)).1.guarded

  unfoldable pub run_all : List Command → MemoryMessageState → MemoryMessageState
  run_all [] s = s
  run_all (c ∷ cs) s = run_all cs (run c s)

  create-IsStored :
      (id : Uuid) (now : chrono.DateTime) (input : CreateMessageInput) (s : MemoryMessageState)
      → IsStored s
      → IsStored (Service.create_with_embeds chrono memory_store id now input (healthy s)).1.guarded
  unfolding Service.create_with_embeds Memory.create_message
  create-IsStored id now input s h = elim (Result-cases (new_message chrono id now input)) [
    | inl (e, bad) ↦ rw bad h
    | inr (m, good) ↦ rw good (
        subst (λ (t : Mutex MemoryMessageState). IsStored t.guarded)
          (sym (state-pure (locked store_unavailable (create_message_body m)) (λ _. m) (healthy s)))
          (subst IsStored (sym (state-locked store_unavailable (create_message_body m) s))
            (create_message-IsStored m s h)))
  ]

  update-IsStored :
      (message : Message) (content : Text) (user_ids role_ids : List Uuid) (everyone : Bool)
      (components : Option (List Value)) (s : MemoryMessageState)
      → IsStored s
      → IsStored
          (Service.update_with_mentions memory_store message content user_ids role_ids everyone
            components
            (healthy s)).1.guarded
  unfolding Service.update_with_mentions Memory.update_message
  update-IsStored message content user_ids role_ids everyone components s h =
      elim (Result-cases (patched message content user_ids role_ids everyone components)) [
        | inl (e, bad) ↦ rw bad h
        | inr (m, good) ↦ rw good (
            subst IsStored (sym (state-locked store_unavailable (update_message_body m) s))
              (update_message-IsStored m s h))
      ]

  pub run-IsStored : (c : Command) (s : MemoryMessageState) → IsStored s → IsStored (run c s)
  unfolding run Service.delete Memory.delete_message Memory.purge_for_retention
  run-IsStored (create id now input) s h = create-IsStored id now input s h
  run-IsStored (update message content user_ids role_ids everyone components) s h =
      update-IsStored message content user_ids role_ids everyone components s h
  run-IsStored (delete now message) s h =
      let gone = deleted (chrono.to_rfc3339 now) message in
      subst IsStored (sym (state-locked store_unavailable (delete_message_body gone) s))
        (delete_message-IsStored gone s h)
  run-IsStored (purge organization_id created deleted dry_run) s h =
      subst IsStored
        (sym
          (state-locked store_unavailable (purge_body organization_id created deleted dry_run) s))
        (purge-IsStored organization_id created deleted dry_run s h)

  run_all_from : (cs : List Command) (s : MemoryMessageState) → IsStored s → IsStored (run_all cs s)
  unfolding run_all
  run_all_from [] s h = h
  run_all_from (c ∷ cs) s h = run_all_from cs (run c s) (run-IsStored c s h)

  pub run_all-IsStored : (cs : List Command) → IsStored (run_all cs empty_state)
  run_all-IsStored cs = run_all_from cs empty_state (empty-IsKeyed (λ (m : Message). m.id))
