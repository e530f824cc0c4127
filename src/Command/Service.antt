-- ===== src/Command/Service.antt =====
-- src/domain/command.rs: `CommandService`, over any store. The hash of a token, hexadecimal SHA-256, is a
-- parameter; a fresh id, the printed clock and the digits of a fresh token are arguments.
use opencord_server.Base.{
  ◌&&◌, ◌||◌, Bool, false, not, if◌then◌else◌, Option, none, some, Text, Uuid, text, text_eqb,
  nat_eqb, starts_with, Result, ok, ok_or,
}
use opencord_server.Base.Fallible as Fallible
use opencord_server.Base.Json.{Value}
use opencord_server.Base.Map.{is_some}
use opencord_server.Base.Action.{Action, ◌>>=◌, ◌>>◌, lift, pure, fail}
use opencord_server.Command.{
  ApplicationCommand, CommandInteraction, CommandInteractionCreated, CreateApplicationCommandInput,
  CreateCommandInteractionInput, CreateComponentInteractionInput, CommandError, unauthorized,
  not_found, already_responded, interaction_type_application_command,
  interaction_type_message_component, normalize_command_name, normalize_description,
  normalize_command_kind, normalize_options, normalize_interaction_options,
  normalize_component_custom_id, normalize_component_type, token_prefix, generate_interaction_token,
  token_last_four, empty_array,
}
use opencord_server.Command.Store.{CommandStore}

-- `create_command` up to the store.
unfoldable pub new_command :
    Uuid → Text → CreateApplicationCommandInput → Result CommandError ApplicationCommand
new_command id now input = Fallible.◌>>=◌ (normalize_command_name input.name) (λ name.
    Fallible.◌>>=◌ (normalize_description input.description) (λ description.
      Fallible.◌>>=◌ (normalize_command_kind input.kind) (λ kind.
        Fallible.◌>>=◌ (normalize_options input.options) (λ options. ok (record {
          id = id;
          application_id = input.bot.application_id;
          organization_id = input.bot.organization_id;
          space_id = input.space_id;
          created_by_bot_user_id = input.bot.bot_user_id;
          name = name;
          description = description;
          kind = kind;
          options = options;
          status = text "active";
          created_at = now;
          updated_at = now;
        })))))

-- `is_some_and(|space_id| space_id != input.space_id)`
abbrev pub is_other_space : Uuid → Option Uuid → Bool
is_other_space space_id none = false
is_other_space space_id (some own) = not (nat_eqb own space_id)

module _ (hash_interaction_token : Text → Text) where
  unfoldable pub command_interaction :
      Uuid
      → Text
      → Text
      → ApplicationCommand
      → CreateCommandInteractionInput
      → Value
      → CommandInteraction
  command_interaction id now token command input options = record {
    id = id;
    application_id = command.application_id;
    organization_id = input.organization_id;
    space_id = input.space_id;
    channel_id = input.channel_id;
    interaction_type = interaction_type_application_command;
    command_id = some command.id;
    message_id = none;
    invoking_user_id = input.invoking_user_id;
    token_hash = hash_interaction_token token;
    token_last_four = token_last_four token;
    status = text "pending";
    options = options;
    custom_id = none;
    component_type = none;
    response_message_id = none;
    created_at = now;
    responded_at = none;
  }

  unfoldable pub component_interaction :
      Uuid → Text → Text → CreateComponentInteractionInput → Result CommandError CommandInteraction
  component_interaction id now token input =
      Fallible.◌>>=◌ (normalize_component_custom_id input.custom_id) (λ custom_id.
        Fallible.◌>>=◌ (normalize_component_type input.component_type) (λ component_type.
          ok (record {
            id = id;
            application_id = input.application_id;
            organization_id = input.organization_id;
            space_id = input.space_id;
            channel_id = input.channel_id;
            interaction_type = interaction_type_message_component;
            command_id = none;
            message_id = some input.message_id;
            invoking_user_id = input.invoking_user_id;
            token_hash = hash_interaction_token token;
            token_last_four = token_last_four token;
            status = text "pending";
            options = empty_array;
            custom_id = some custom_id;
            component_type = some component_type;
            response_message_id = none;
            created_at = now;
            responded_at = none;
          })))

  module _ (store : CommandStore) where
    open store use {State}

    unfoldable pub create_command :
        Uuid → Text → CreateApplicationCommandInput → Action State CommandError ApplicationCommand
    create_command id now input = do
      command ← lift (new_command id now input)
      store.create_command command

    unfoldable pub create_space_command :
        Uuid → Text → CreateApplicationCommandInput → Action State CommandError ApplicationCommand
    create_space_command id now input = create_command id now input

    unfoldable pub create_global_command :
        Uuid → Text → CreateApplicationCommandInput → Action State CommandError ApplicationCommand
    create_global_command id now input = create_command id now input

    unfoldable pub get_command : Uuid → Action State CommandError ApplicationCommand
    get_command command_id = do found ← store.get_command command_id; lift (ok_or not_found found)

    unfoldable pub create_interaction :
        Uuid
        → Text
        → Text
        → CreateCommandInteractionInput
        → Action State CommandError CommandInteractionCreated
    unfolding get_command
    create_interaction id now digits input = do
      command ← get_command input.command_id
      if not (nat_eqb command.organization_id input.organization_id)
          then fail not_found
          else if is_other_space input.space_id command.space_id
          then fail not_found
          else do
            options ← lift (normalize_interaction_options input.options)
            store.create_interaction (
                command_interaction id now (generate_interaction_token digits) command input
                  options)
            pure (record {
              interaction =
                  command_interaction id now (generate_interaction_token digits) command input
                    options;
              token = generate_interaction_token digits;
            })

    unfoldable pub create_component_interaction :
        Uuid
        → Text
        → Text
        → CreateComponentInteractionInput
        → Action State CommandError CommandInteractionCreated
    create_component_interaction id now digits input = do
      interaction ← lift (component_interaction id now (generate_interaction_token digits) input)
      store.create_interaction interaction
      pure (record { interaction = interaction; token = generate_interaction_token digits })

    unfoldable pub interaction_for_callback :
        Uuid → Text → Action State CommandError CommandInteraction
    interaction_for_callback interaction_id token =
        if not (starts_with token token_prefix) then fail unauthorized else do
          found ← store.get_interaction_by_token_hash interaction_id (hash_interaction_token token)
          interaction ← lift (ok_or unauthorized found)
          if not (text_eqb interaction.status (text "pending"))
              then fail already_responded
              else pure interaction

    unfoldable pub interaction_for_followup :
        Uuid → Text → Action State CommandError CommandInteraction
    interaction_for_followup application_id token =
        if not (starts_with token token_prefix) then fail unauthorized else do
          found ← store.find_interaction_by_token_hash (hash_interaction_token token)
          interaction ← lift (ok_or unauthorized found)
          if not (nat_eqb interaction.application_id application_id)
              then fail unauthorized
              else if not (text_eqb interaction.status (text "deferred"))
                  && not (text_eqb interaction.status (text "responded"))
              then fail already_responded
              else pure interaction

    unfoldable pub interaction_for_original_response :
        Uuid → Text → Action State CommandError CommandInteraction
    interaction_for_original_response application_id token =
        if not (starts_with token token_prefix) then fail unauthorized else do
          found ← store.find_interaction_by_token_hash (hash_interaction_token token)
          interaction ← lift (ok_or unauthorized found)
          if not (nat_eqb interaction.application_id application_id)
              then fail unauthorized
              else if not (text_eqb interaction.status (text "responded"))
                  || not (is_some interaction.response_message_id)
              then fail not_found
              else pure interaction

    unfoldable pub mark_interaction_deferred :
        Uuid → Text → Action State CommandError CommandInteraction
    mark_interaction_deferred interaction_id now =
        store.mark_interaction_deferred interaction_id now

    unfoldable pub mark_interaction_responded :
        Uuid → Option Uuid → Text → Action State CommandError CommandInteraction
    mark_interaction_responded interaction_id response_message_id now =
        store.mark_interaction_responded interaction_id response_message_id now

    unfoldable pub record_interaction_followup_message :
        Uuid → Uuid → Action State CommandError (Unit {0})
    record_interaction_followup_message interaction_id message_id =
        store.record_interaction_followup_message interaction_id message_id

    unfoldable pub interaction_has_followup_message : Uuid → Uuid → Action State CommandError Bool
    interaction_has_followup_message interaction_id message_id =
        store.interaction_has_followup_message interaction_id message_id
