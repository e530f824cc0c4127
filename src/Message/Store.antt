-- ===== src/Message/Store.antt =====
-- src/domain/message.rs: the trait `MessageStore`, as operations on a state of its own.
use opencord_server.Base.{ℕ, Bool, List, Option, Text, Uuid}
use opencord_server.Base.Action.{Action}
use opencord_server.Message.{Message, MessageError}

pub record MessageStore : Type 1 where
  pub State : Type 0
  pub create_message : Message → Action State MessageError (Unit {0})
  pub list_for_channel : Uuid → Action State MessageError (List Message)
  pub list_for_organization_between : Uuid → Text → Text → Action State MessageError (List Message)
  pub get_message : Uuid → Action State MessageError (Option Message)
  pub update_message : Message → Action State MessageError Message
  pub delete_message : Message → Action State MessageError (Unit {0})
  pub purge_for_retention : Uuid → Option Text → Option Text → Bool → Action State MessageError ℕ
