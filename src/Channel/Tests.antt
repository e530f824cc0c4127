-- ===== src/Channel/Tests.antt =====
-- Tests of the channels, and their theorems at concrete inputs.
use opencord_server.Base.{
  true, false, [], ◌∷◌, none, some, Uuid, text, text_eqb, text_eq, nat_eq, pair_eq,
  is_ascii_alphanumeric, ok, err, ◌≡◌, refl, len, collapse, trim, is_whitespace, ascii_lower,
}
use opencord_server.Base.Int.{pos, negsuc}
use opencord_server.Base.Map.{get, insert}
use opencord_server.Channel.{
  Channel, invalid_input, normalize_name, normalize_kind, normalize_topic, slugify, text_kind,
  voice_kind, slug_already_exists,
}
use opencord_server.Channel.Memory
use opencord_server.Channel.Memory.{
  MemoryChannelState, slug_key, empty_state, create_channel_body, archive_channel_body,
  list_for_space_body, position_leb, memory_store,
}
use opencord_server.Channel.Service
use opencord_server.Channel.Service.{new_channel, patched}
use opencord_server.Channel.Commands.{create, run, run_all}
use opencord_server.Channel.Index.{run_all-channel_slug_unique, archive_channel-create_channel}

kinds :
    (normalize_kind (some (text " Voice ")) ≡ ok voice_kind)
    × (normalize_kind (some (text " ")) ≡ ok text_kind)
    × (normalize_topic (some (text "  a   b ")) ≡ ok (some (text "a b")))
unfolding normalize_kind normalize_topic trim is_whitespace ascii_lower collapse len text_eqb
kinds = (refl, refl, refl)

abbrev general : Channel
general = record {
  id = 1;
  organization_id = 7;
  space_id = 5;
  kind = text_kind;
  name = text "General";
  slug = text "general";
  position = pos 0;
  topic = none;
  is_private = false;
}

abbrev sample : MemoryChannelState
sample = record {
  channels_by_id = (1, general) ∷ [];
  channel_id_by_space_slug = ((5, text "general"), 1) ∷ [];
}

abbrev made : MemoryChannelState
made = run_all (create 1 7 5 none (text " General ") none false ∷ []) empty_state

sample_created : made ≡ sample
unfolding run_all run Service.create new_channel create_channel_body normalize_name normalize_kind
    normalize_topic slugify collapse get insert len is_ascii_alphanumeric Memory.create_channel
sample_created = refl

-- A position below zero is refused.
negative_position :
    patched general
      (record { name = none; topic = none; position = some (negsuc 0); is_private = none })
    ≡ err (invalid_input (text "channel position must be greater than or equal to 0"))
unfolding patched
negative_position = refl

run_all-channel_slug_unique_example : ◌≡◌ {A = Uuid} 1 1 × (general.id ≡ 1)
unfolding run_all run Service.create new_channel create_channel_body normalize_name normalize_kind
    normalize_topic slugify collapse get insert len is_ascii_alphanumeric Memory.create_channel
    text_eqb
run_all-channel_slug_unique_example =
    run_all-channel_slug_unique
      (create 1 7 5 none (text "General") none false
        ∷ create 2 7 5 none (text "general!") none true
        ∷ [])
      1 1 general general refl refl refl refl

archive_channel-create_channel_example :
    (get (archive_channel_body 1 made).1.channels_by_id 1 ≡ none)
    × (create_channel_body general (archive_channel_body 1 made).1
        ≡ (err slug_already_exists, (archive_channel_body 1 made).1))
unfolding run_all run Service.create new_channel create_channel_body normalize_name normalize_kind
    normalize_topic slugify collapse get insert len is_ascii_alphanumeric Memory.create_channel
    text_eqb
archive_channel-create_channel_example =
    archive_channel-create_channel (create 1 7 5 none (text " General ") none false ∷ []) 1 general
      general refl refl
