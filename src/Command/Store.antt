-- ===== src/Command/Store.antt =====
-- src/domain/command.rs: the trait `CommandStore`, as operations on a state of its own.
use opencord_server.Base.{Bool, Option, Text, Uuid}
use opencord_server.Base.Action.{Action}
use opencord_server.Command.{ApplicationCommand, CommandInteraction, CommandError}

pub record CommandStore : Type 1 where
  pub State : Type 0
  pub create_command : ApplicationCommand → Action State CommandError ApplicationCommand
  pub get_command : Uuid → Action State CommandError (Option ApplicationCommand)
  pub create_interaction : CommandInteraction → Action State CommandError (Unit {0})
  pub get_interaction_by_token_hash :
      Uuid → Text → Action State CommandError (Option CommandInteraction)
  pub find_interaction_by_token_hash : Text → Action State CommandError (Option CommandInteraction)
  pub mark_interaction_deferred : Uuid → Text → Action State CommandError CommandInteraction
  pub mark_interaction_responded :
      Uuid → Option Uuid → Text → Action State CommandError CommandInteraction
  pub record_interaction_followup_message : Uuid → Uuid → Action State CommandError (Unit {0})
  pub interaction_has_followup_message : Uuid → Uuid → Action State CommandError Bool
