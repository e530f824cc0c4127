-- ===== src/Message/Memory.antt =====
-- src/repositories/message_memory.rs: the in-memory message store.
use opencord_server.Base.{
  ℕ, ◌&&◌, ◌||◌, Bool, false, not, nat_eqb, leb, if◌then◌else◌, List, [], map, filter, length,
  Option, none, some, Text, Uuid, nat_eq, text_eqb, ok, err, sort_by, text_leb, text_ltb,
}
use opencord_server.Base.Action.{Action, Mutex, locked}
use opencord_server.Base.Map.{HashMap, get, insert, contains_key, values, is_some}
use opencord_server.Base.Keyed.{remove_all}
use opencord_server.Message.{Message, MessageError, not_found, store_unavailable}
use opencord_server.Message.Store.{MessageStore}

pub record MemoryMessageState : Type 0 where
  pub messages_by_id : HashMap Uuid Message

abbrev pub empty_state : MemoryMessageState
empty_state = record { messages_by_id = [] }

abbrev pub State : Type 0
State = Mutex MemoryMessageState

abbrev pub is_none {ℓ} : {A : Type ℓ} → Option A → Bool
is_none o = not (is_some o)

unfoldable pub create_message_body : Message → Action MemoryMessageState MessageError (Unit {0})
create_message_body message s =
    (ok tt, record { messages_by_id = insert s.messages_by_id message.id message })

unfoldable pub create_message : Message → Action State MessageError (Unit {0})
unfolding create_message_body
create_message message = locked store_unavailable (create_message_body message)

abbrev pub id_leb : Message → Message → Bool
id_leb left right = leb left.id right.id

abbrev pub in_channel : Uuid → Message → Bool
in_channel channel_id message = nat_eqb message.channel_id channel_id && is_none message.deleted_at

unfoldable pub list_for_channel_body : Uuid → MemoryMessageState → List Message
list_for_channel_body channel_id s =
    sort_by id_leb (filter (in_channel channel_id) (values s.messages_by_id))

unfoldable pub list_for_channel : Uuid → Action State MessageError (List Message)
unfolding list_for_channel_body
list_for_channel channel_id =
    locked store_unavailable (λ s. (ok (list_for_channel_body channel_id s), s))

-- By creation time and then by id.
unfoldable pub created_leb : Message → Message → Bool
created_leb left right =
    text_ltb left.created_at right.created_at
    || text_eqb left.created_at right.created_at && leb left.id right.id

abbrev pub created_between : Uuid → Text → Text → Message → Bool
created_between organization_id from to message =
    nat_eqb message.organization_id organization_id
    && (text_leb from message.created_at && text_leb message.created_at to)

unfoldable pub list_for_organization_between :
    Uuid → Text → Text → Action State MessageError (List Message)
unfolding created_leb
list_for_organization_between organization_id from to = locked store_unavailable (λ s. (
  ok (
      sort_by created_leb
        (filter (created_between organization_id from to) (values s.messages_by_id))),
  s,
))

-- `filter(|message| message.deleted_at.is_none())` on what `get` found.
abbrev pub if_live : Option Message → Option Message
if_live none = none
if_live (some message) = if is_none message.deleted_at then some message else none

unfoldable pub get_message : Uuid → Action State MessageError (Option Message)
get_message message_id =
    locked store_unavailable (λ s. (ok (if_live (get s.messages_by_id message_id)), s))

unfoldable pub update_message_body : Message → Action MemoryMessageState MessageError Message
update_message_body message s =
    if not (contains_key s.messages_by_id message.id)
    then (err not_found, s)
    else (ok message, record { messages_by_id = insert s.messages_by_id message.id message })

unfoldable pub update_message : Message → Action State MessageError Message
unfolding update_message_body
update_message message = locked store_unavailable (update_message_body message)

unfoldable pub delete_message_body : Message → Action MemoryMessageState MessageError (Unit {0})
delete_message_body message s =
    if not (contains_key s.messages_by_id message.id)
    then (err not_found, s)
    else (ok tt, record { messages_by_id = insert s.messages_by_id message.id message })

unfoldable pub delete_message : Message → Action State MessageError (Unit {0})
unfolding delete_message_body
delete_message message = locked store_unavailable (delete_message_body message)

-- `is_some_and(|time| time < cutoff)`
abbrev pub before : Option Text → Text → Bool
before none time = false
before (some cutoff) time = text_ltb time cutoff

abbrev pub deleted_earlier : Option Text → Option Text → Bool
deleted_earlier cutoff none = false
deleted_earlier cutoff (some deleted_at) = before cutoff deleted_at

unfoldable pub is_expired : Uuid → Option Text → Option Text → Message → Bool
is_expired organization_id created_before deleted_before message =
    nat_eqb message.organization_id organization_id
    && (before created_before message.created_at
        || deleted_earlier deleted_before message.deleted_at)

unfoldable pub expired_ids : Uuid → Option Text → Option Text → MemoryMessageState → List Uuid
unfolding is_expired
expired_ids organization_id created_before deleted_before s =
    map (λ (m : Message). m.id)
      (filter (is_expired organization_id created_before deleted_before) (values s.messages_by_id))

unfoldable pub purge_body :
    Uuid → Option Text → Option Text → Bool → Action MemoryMessageState MessageError ℕ
unfolding expired_ids remove_all
purge_body organization_id created_before deleted_before dry_run s =
    let ids = expired_ids organization_id created_before deleted_before s in
    (
      ok (length ids),
      if not dry_run then record { messages_by_id = remove_all ids s.messages_by_id } else s,
    )

unfoldable pub purge_for_retention :
    Uuid → Option Text → Option Text → Bool → Action State MessageError ℕ
unfolding purge_body
purge_for_retention organization_id created_before deleted_before dry_run =
    locked store_unavailable (purge_body organization_id created_before deleted_before dry_run)

abbrev pub memory_store : MessageStore
memory_store = record {
  State = State;
  create_message = create_message;
  list_for_channel = list_for_channel;
  list_for_organization_between = list_for_organization_between;
  get_message = get_message;
  update_message = update_message;
  delete_message = delete_message;
  purge_for_retention = purge_for_retention;
}
