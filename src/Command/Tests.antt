-- ===== src/Command/Tests.antt =====
-- Interactions on concrete inputs.
use opencord_server.Base.{
  [], ◌∷◌, none, some, Text, text, text_eqb, nat_eq, ok, err, ◌≡◌, refl, false,
}
use opencord_server.Base.Int.{pos}
use opencord_server.Base.Action.{healthy}
use opencord_server.Base.Map.{get, insert}
use opencord_server.Command.{
  ApplicationCommand, CommandInteractionCreated, CreateCommandInteractionInput, unauthorized,
  empty_array, generate_interaction_token, normalize_interaction_options,
}
use opencord_server.Command.Memory
use opencord_server.Command.Memory.{MemoryCommandState, memory_store}
use opencord_server.Command.Service
use opencord_server.Command.Service.{command_interaction}
use opencord_server.Command.Lifecycle.{respond, defer, count_answered, count_answered_exact}
use opencord_server.Command.Callback.{interaction_for_callback-create_interaction}

abbrev same : Text → Text
same token = token

abbrev ping : ApplicationCommand
ping = record {
  id = 10;
  application_id = 2;
  organization_id = 7;
  space_id = none;
  created_by_bot_user_id = 3;
  name = text "ping";
  description = text "Answers";
  kind = pos 1;
  options = empty_array;
  status = text "active";
  created_at = text "2024";
  updated_at = text "2024";
}

abbrev with_ping : MemoryCommandState
with_ping = record {
  commands = (10, ping) ∷ [];
  interactions = [];
  interaction_followup_messages = [];
}

abbrev request : CreateCommandInteractionInput
request = record {
  command_id = 10;
  organization_id = 7;
  space_id = 5;
  channel_id = 6;
  invoking_user_id = 9;
  options = none;
}

abbrev made : CommandInteractionCreated
made = record {
  interaction = command_interaction same 1 (text "2024") (text "oci_00ff") ping request empty_array;
  token = text "oci_00ff";
}

abbrev with_pending : MemoryCommandState
with_pending = record with_ping { interactions = (1, made.interaction) ∷ [] }

interaction_for_callback-create_interaction_example :
    (Service.interaction_for_callback same memory_store 1 made.token (healthy with_pending)
      ≡ (ok made.interaction, healthy with_pending))
    × ((token : Text)
        → text_eqb made.token token ≡ false
        → Service.interaction_for_callback same memory_store 1 token (healthy with_pending)
          ≡ (err unauthorized, healthy with_pending))
unfolding Service.create_interaction Service.get_command Memory.get_command
    Memory.create_interaction get insert text_eqb normalize_interaction_options
    generate_interaction_token command_interaction
interaction_for_callback-create_interaction_example =
    interaction_for_callback-create_interaction same 1 (text "2024") (text "00ff") request with_ping
      made (healthy with_pending) refl

count_answered_exact_example :
    count_answered same 1
      (respond 1 (some 40) (text "2024")
        ∷ defer 1 (text "2025")
        ∷ respond 1 none (text "2026")
        ∷ [])
      with_pending
    ≡ 1
unfolding get text_eqb command_interaction
count_answered_exact_example =
    count_answered_exact same 1
      (respond 1 (some 40) (text "2024")
        ∷ defer 1 (text "2025")
        ∷ respond 1 none (text "2026")
        ∷ [])
      with_pending refl
