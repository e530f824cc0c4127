-- ===== src/Channel/Memory.antt =====
-- src/repositories/channel_memory.rs: the in-memory channel store.
use opencord_server.Base.{
  ◌&&◌, ◌||◌, Bool, false, not, nat_eqb, if◌then◌else◌, List, [], filter, Option, none, some, Text,
  Uuid, nat_eq, text_eq, pair_eq, ok, err, sort_by, text_leb,
}
use opencord_server.Base.Int.{ltb_ℤ, eqb_ℤ}
use opencord_server.Base.Action.{Action, Mutex, locked}
use opencord_server.Base.Map.{HashMap, get, insert, remove, contains_key, values, is_some}
use opencord_server.Channel.{
  Channel, ChannelError, slug_already_exists, not_found, store_unavailable,
}
use opencord_server.Channel.Store.{ChannelStore}

pub record MemoryChannelState : Type 0 where
  pub channels_by_id : HashMap Uuid Channel
  pub channel_id_by_space_slug : HashMap (Uuid × Text) Uuid

abbrev pub empty_state : MemoryChannelState
empty_state = record { channels_by_id = []; channel_id_by_space_slug = [] }

abbrev pub State : Type 0
State = Mutex MemoryChannelState

abbrev pub slug_key : Channel → Uuid × Text
slug_key channel = (channel.space_id, channel.slug)

unfoldable pub create_channel_body : Channel → Action MemoryChannelState ChannelError (Unit {0})
create_channel_body channel s =
    if contains_key s.channel_id_by_space_slug (slug_key channel)
    then (err slug_already_exists, s)
    else (
      ok tt,
      record {
        channel_id_by_space_slug = insert s.channel_id_by_space_slug (slug_key channel) channel.id;
        channels_by_id = insert s.channels_by_id channel.id channel;
      },
    )

unfoldable pub create_channel : Channel → Action State ChannelError (Unit {0})
unfolding create_channel_body
create_channel channel = locked store_unavailable (create_channel_body channel)

-- Not after, by position and then by name.
unfoldable pub position_leb : Channel → Channel → Bool
position_leb left right =
    ltb_ℤ left.position right.position
    || eqb_ℤ left.position right.position && text_leb left.name right.name

unfoldable pub list_for_space_body : Uuid → MemoryChannelState → List Channel
list_for_space_body space_id s =
    sort_by position_leb (filter (λ c. nat_eqb c.space_id space_id) (values s.channels_by_id))

unfoldable pub list_for_space : Uuid → Action State ChannelError (List Channel)
unfolding list_for_space_body
list_for_space space_id = locked store_unavailable (λ s. (ok (list_for_space_body space_id s), s))

unfoldable pub get_channel : Uuid → Action State ChannelError (Option Channel)
get_channel channel_id = locked store_unavailable (λ s. (ok (get s.channels_by_id channel_id), s))

-- `is_some_and(|existing_id| *existing_id != id)`
abbrev pub taken_by_other : Uuid → Option Uuid → Bool
taken_by_other id none = false
taken_by_other id (some existing_id) = not (nat_eqb existing_id id)

unfoldable pub update_channel_body : Channel → Action MemoryChannelState ChannelError Channel
update_channel_body channel s = elim (get s.channels_by_id channel.id) [
  | none ↦ (err not_found, s)
  | some previous ↦
      if taken_by_other channel.id (get s.channel_id_by_space_slug (slug_key channel))
      then (err slug_already_exists, s)
      else (
        ok channel,
        record {
          channel_id_by_space_slug =
              insert (remove s.channel_id_by_space_slug (slug_key previous)) (slug_key channel)
                channel.id;
          channels_by_id = insert s.channels_by_id channel.id channel;
        },
      )
]

unfoldable pub update_channel : Channel → Action State ChannelError Channel
unfolding update_channel_body
update_channel channel = locked store_unavailable (update_channel_body channel)

unfoldable pub archive_channel_body : Uuid → Action MemoryChannelState ChannelError (Unit {0})
archive_channel_body channel_id s =
    if is_some (get s.channels_by_id channel_id)
    then (ok tt, record s { channels_by_id = remove s.channels_by_id channel_id })
    else (err not_found, s)

unfoldable pub archive_channel : Uuid → Action State ChannelError (Unit {0})
unfolding archive_channel_body
archive_channel channel_id = locked store_unavailable (archive_channel_body channel_id)

abbrev pub memory_store : ChannelStore
memory_store = record {
  State = State;
  create_channel = create_channel;
  list_for_space = list_for_space;
  get_channel = get_channel;
  update_channel = update_channel;
  archive_channel = archive_channel;
}
