-- ===== src/Command/Memory.antt =====
-- src/repositories/command_memory.rs: the in-memory store of commands and interactions.
use opencord_server.Base.{
  ◌&&◌, Bool, not, if◌then◌else◌, List, [], ◌∷◌, find, contains, Option, none, some, Text, Uuid,
  text, text_eqb, nat_eq, pair_eq, Result, ok, err,
}
use opencord_server.Base.Action.{Action, Mutex, locked}
use opencord_server.Base.Map.{HashMap, get, insert, contains_key, values}
use opencord_server.Command.{
  ApplicationCommand, CommandInteraction, CommandError, not_found, already_responded,
  store_unavailable,
}
use opencord_server.Command.Store.{CommandStore}

pub record MemoryCommandState : Type 0 where
  pub commands : HashMap Uuid ApplicationCommand
  pub interactions : HashMap Uuid CommandInteraction
  pub interaction_followup_messages : List (Uuid × Uuid)

abbrev pub empty_state : MemoryCommandState
empty_state = record { commands = []; interactions = []; interaction_followup_messages = [] }

abbrev pub State : Type 0
State = Mutex MemoryCommandState

unfoldable pub create_command_body :
    ApplicationCommand → Action MemoryCommandState CommandError ApplicationCommand
create_command_body command s =
    (ok command, record s { commands = insert s.commands command.id command })

unfoldable pub create_command : ApplicationCommand → Action State CommandError ApplicationCommand
unfolding create_command_body
create_command command = locked store_unavailable (create_command_body command)

-- `filter(|command| command.status == "active")` on what `get` found.
abbrev pub if_active : Option ApplicationCommand → Option ApplicationCommand
if_active none = none
if_active (some command) = if text_eqb command.status (text "active") then some command else none

unfoldable pub get_command : Uuid → Action State CommandError (Option ApplicationCommand)
get_command command_id =
    locked store_unavailable (λ s. (ok (if_active (get s.commands command_id)), s))

unfoldable pub create_interaction_body :
    CommandInteraction → Action MemoryCommandState CommandError (Unit {0})
create_interaction_body interaction s =
    (ok tt, record s { interactions = insert s.interactions interaction.id interaction })

unfoldable pub create_interaction : CommandInteraction → Action State CommandError (Unit {0})
unfolding create_interaction_body
create_interaction interaction = locked store_unavailable (create_interaction_body interaction)

abbrev pub has_hash : Text → CommandInteraction → Bool
has_hash token_hash interaction = text_eqb interaction.token_hash token_hash

abbrev pub if_hash : Text → Option CommandInteraction → Option CommandInteraction
if_hash token_hash none = none
if_hash token_hash (some interaction) =
    if has_hash token_hash interaction then some interaction else none

unfoldable pub get_interaction_by_token_hash :
    Uuid → Text → Action State CommandError (Option CommandInteraction)
get_interaction_by_token_hash interaction_id token_hash =
    locked store_unavailable (λ s. (ok (if_hash token_hash (get s.interactions interaction_id)), s))

unfoldable pub find_interaction_by_token_hash :
    Text → Action State CommandError (Option CommandInteraction)
find_interaction_by_token_hash token_hash =
    locked store_unavailable (λ s. (ok (find (has_hash token_hash) (values s.interactions)), s))

abbrev pub has_status : Text → CommandInteraction → Bool
has_status status interaction = text_eqb interaction.status status

abbrev pub as_deferred : Text → CommandInteraction → CommandInteraction
as_deferred responded_at interaction = record interaction {
  status = text "deferred";
  responded_at = some responded_at;
}

-- What a write through `get_mut` leaves behind.
abbrev pub written : Uuid → CommandInteraction → MemoryCommandState → MemoryCommandState
written interaction_id interaction s = record s {
  interactions = insert s.interactions interaction_id interaction;
}

abbrev pub defer_found :
    Uuid
    → Text
    → MemoryCommandState
    → Option CommandInteraction
    → Result CommandError CommandInteraction × MemoryCommandState
defer_found interaction_id responded_at s none = (err not_found, s)
defer_found interaction_id responded_at s (some interaction) =
    if not (has_status (text "pending") interaction) then (err already_responded, s) else (
      ok (as_deferred responded_at interaction),
      written interaction_id (as_deferred responded_at interaction) s,
    )

unfoldable pub mark_deferred_body :
    Uuid → Text → Action MemoryCommandState CommandError CommandInteraction
mark_deferred_body interaction_id responded_at s =
    defer_found interaction_id responded_at s (get s.interactions interaction_id)

unfoldable pub mark_interaction_deferred :
    Uuid → Text → Action State CommandError CommandInteraction
unfolding mark_deferred_body
mark_interaction_deferred interaction_id responded_at =
    locked store_unavailable (mark_deferred_body interaction_id responded_at)

abbrev pub or_kept : Option Uuid → Option Uuid → Option Uuid
or_kept none kept = kept
or_kept (some id) kept = some id

abbrev pub as_responded : Option Uuid → Text → CommandInteraction → CommandInteraction
as_responded response_message_id responded_at interaction = record interaction {
  status = text "responded";
  response_message_id = or_kept response_message_id interaction.response_message_id;
  responded_at = some responded_at;
}

abbrev pub respond_found :
    Uuid
    → Option Uuid
    → Text
    → MemoryCommandState
    → Option CommandInteraction
    → Result CommandError CommandInteraction × MemoryCommandState
respond_found interaction_id response_message_id responded_at s none = (err not_found, s)
respond_found interaction_id response_message_id responded_at s (some interaction) =
    if not (has_status (text "pending") interaction)
      && not (has_status (text "deferred") interaction)
    then (err already_responded, s)
    else (
      ok (as_responded response_message_id responded_at interaction),
      written interaction_id (as_responded response_message_id responded_at interaction) s,
    )

unfoldable pub mark_responded_body :
    Uuid → Option Uuid → Text → Action MemoryCommandState CommandError CommandInteraction
mark_responded_body interaction_id response_message_id responded_at s =
    respond_found interaction_id response_message_id responded_at s
      (get s.interactions interaction_id)

unfoldable pub mark_interaction_responded :
    Uuid → Option Uuid → Text → Action State CommandError CommandInteraction
unfolding mark_responded_body
mark_interaction_responded interaction_id response_message_id responded_at =
    locked store_unavailable (mark_responded_body interaction_id response_message_id responded_at)

-- Inserting into the set.
abbrev pub with_pair : Uuid × Uuid → List (Uuid × Uuid) → List (Uuid × Uuid)
with_pair pair pairs = if contains pairs pair then pairs else pair ∷ pairs

unfoldable pub record_followup_body :
    Uuid → Uuid → Action MemoryCommandState CommandError (Unit {0})
record_followup_body interaction_id message_id s =
    if not (contains_key s.interactions interaction_id) then (err not_found, s) else (
      ok tt,
      record s {
        interaction_followup_messages =
            with_pair (interaction_id, message_id) s.interaction_followup_messages;
      },
    )

unfoldable pub record_interaction_followup_message :
    Uuid → Uuid → Action State CommandError (Unit {0})
unfolding record_followup_body
record_interaction_followup_message interaction_id message_id =
    locked store_unavailable (record_followup_body interaction_id message_id)

unfoldable pub interaction_has_followup_message : Uuid → Uuid → Action State CommandError Bool
interaction_has_followup_message interaction_id message_id =
    locked store_unavailable
      (λ s. (ok (contains s.interaction_followup_messages (interaction_id, message_id)), s))

abbrev pub memory_store : CommandStore
memory_store = record {
  State = State;
  create_command = create_command;
  get_command = get_command;
  create_interaction = create_interaction;
  get_interaction_by_token_hash = get_interaction_by_token_hash;
  find_interaction_by_token_hash = find_interaction_by_token_hash;
  mark_interaction_deferred = mark_interaction_deferred;
  mark_interaction_responded = mark_interaction_responded;
  record_interaction_followup_message = record_interaction_followup_message;
  interaction_has_followup_message = interaction_has_followup_message;
}
