-- ===== src/Channel/Store.antt =====
-- src/domain/channel.rs: the trait `ChannelStore`, as operations on a state of its own.
use opencord_server.Base.{Uuid, List, Option}
use opencord_server.Base.Action.{Action}
use opencord_server.Channel.{Channel, ChannelError}

pub record ChannelStore : Type 1 where
  pub State : Type 0
  pub create_channel : Channel → Action State ChannelError (Unit {0})
  pub list_for_space : Uuid → Action State ChannelError (List Channel)
  pub get_channel : Uuid → Action State ChannelError (Option Channel)
  pub update_channel : Channel → Action State ChannelError Channel
  pub archive_channel : Uuid → Action State ChannelError (Unit {0})
