-- ===== src/Message/Tests.antt =====
-- Tests of the messages, and their theorems at concrete inputs.
use opencord_server.Base.{
  List, true, false, [], ◌∷◌, none, some, Uuid, Text, text, text_eqb, nat_eq, ok, err, ◌≡◌, refl,
  len, trim, trim_idem, is_whitespace, text_ltb, ◌≢◌, ◌↔◌,
}
use opencord_server.Base.Time.{Chrono, ReadsBack}
use opencord_server.Base.Json.{
  Value, string, object, number, pos_int, end, member, get_member, insert_member, any_key,
  members_len, put,
}
use opencord_server.Base.Member.{◌∈◌, Sorted}
use opencord_server.Message.{Message}
use opencord_server.Message.Content.{normalize_content}
use opencord_server.Message.Embed.{
  optional_embed_text, optional_embed_url, optional_embed_timestamp, optional_embed_color,
  optional_embed_footer, optional_embed_media, optional_embed_author, optional_embed_fields,
}
use opencord_server.Message.Parts.{normalize_embed, check_type}
use opencord_server.Base.Action.{healthy}
use opencord_server.Base.Map.{get, remove}
use opencord_server.Base.Keyed.{remove_all}
use opencord_server.Message.Memory.{
  MemoryMessageState, memory_store, purge_body, list_for_channel_body, id_leb, empty_state,
}
use opencord_server.Message.Service
use opencord_server.Message.Commands.{Command, create, run_all}
use opencord_server.Message.Purge.{Expires, purge_exact, list_for_channel_exact}
use opencord_server.Message.Deleted.{get-delete, get-update-delete}
use opencord_server.Message.{not_found}
use opencord_server.Message.Embeds.{normalize_embed_idem}

-- A clock whose times are the texts that it prints.
abbrev plain : Chrono
plain = record {
  DateTime = Text;
  parse_from_rfc3339 = λ s. some (trim s);
  to_rfc3339 = λ s. trim s;
  is_after = λ a b. false;
  minus_days = λ a d. a;
}

plain-ReadsBack : (s : Text) → ReadsBack plain s
plain-ReadsBack s = record { again = trim (trim (trim s)); reads = refl; prints = simp trim_idem }

abbrev raw_embed : Value
raw_embed = object (
    member (text "color") (number (pos_int 255)) (member (text "title") (string (text " Hi ")) end))

abbrev clean_embed : Value
clean_embed = object (
    member (text "color") (number (pos_int 255)) (
      member (text "title") (string (text "Hi")) (member (text "type") (string (text "rich")) end)))

embed_is_cleaned : normalize_embed plain raw_embed ≡ ok clean_embed
unfolding normalize_embed any_key text_eqb optional_embed_text get_member trim is_whitespace
    check_type optional_embed_url optional_embed_timestamp optional_embed_color
    optional_embed_footer optional_embed_media optional_embed_author optional_embed_fields
    members_len put insert_member text_ltb
embed_is_cleaned = refl

normalize_embed_idem_example : normalize_embed plain clean_embed ≡ ok clean_embed
normalize_embed_idem_example =
    normalize_embed_idem plain raw_embed clean_embed embed_is_cleaned
      (λ m time _ _. plain-ReadsBack time)

abbrev hello : Message
hello = record {
  id = 4;
  organization_id = 7;
  space_id = some 5;
  channel_id = 3;
  author_user_id = 9;
  content = text "hello";
  content_format = text "plain";
  embeds = [];
  components = [];
  webhook_username = none;
  webhook_avatar_url = none;
  mention_user_ids = [];
  mention_role_ids = [];
  mention_everyone = false;
  reply_to_message_id = none;
  edited_at = none;
  deleted_at = none;
  created_at = text "2024-01-01T00:00:00.000Z";
}

abbrev history : List (Command plain)
history =
    create 4 (text "2024-01-01T00:00:00.000Z") (record {
      organization_id = 7;
      space_id = some 5;
      channel_id = 3;
      author_user_id = 9;
      content = text " hello ";
      allow_empty_content = false;
      embeds = [];
      components = [];
      webhook_username = none;
      webhook_avatar_url = none;
      mention_user_ids = [];
      mention_role_ids = [];
      mention_everyone = false;
      reply_to_message_id = none;
    })
    ∷ []

abbrev stored : MemoryMessageState
stored = record { messages_by_id = (4, hello) ∷ [] }

list_for_channel_exact_example :
    let s = run_all plain history empty_state in
    (hello ∈ list_for_channel_body 3 s ↔ (
      (get s.messages_by_id 4 ≡ some hello) × (hello.channel_id ≡ 3) × (hello.deleted_at ≡ none)))
    × Sorted id_leb (list_for_channel_body 3 s)
list_for_channel_exact_example = list_for_channel_exact plain history 3 hello

purge_exact_example :
    let s = run_all plain history empty_state in
    let purged = purge_body 7 (some (text "2025")) none false s in
    ((id : Uuid) (m : Message)
      → get s.messages_by_id id ≡ some m
      → Expires 7 (some (text "2025")) none m
      → get purged.1.messages_by_id id ≡ none)
    × ((id : Uuid) (m : Message)
        → get s.messages_by_id id ≡ some m
        → ¬ Expires 7 (some (text "2025")) none m
        → get purged.1.messages_by_id id ≡ some m)
    × ((id : Uuid) → get s.messages_by_id id ≡ none → get purged.1.messages_by_id id ≡ none)
    × (purge_body 7 (some (text "2025")) none true s ≡ (purged.0, s))
    × ((purge_body 7 (some (text "2025")) none false purged.1).0 ≡ ok 0)
purge_exact_example = purge_exact plain history 7 (some (text "2025")) none

-- The cut-off is on the other side of the message, or of its organization.
purged :
    (purge_body 7 (some (text "2025")) none false stored ≡ (ok 1, record { messages_by_id = [] }))
    × (purge_body 8 (some (text "2025")) none false stored ≡ (ok 0, stored))
    × (purge_body 7 (some (text "2023")) none false stored ≡ (ok 0, stored))
unfolding purge_body text_ltb remove remove_all
purged = (refl, refl, refl)

get-delete_example :
    let s = (Service.delete plain memory_store (text "2024-01-02") hello (healthy stored)).1 in
    ((Service.get memory_store 4 s).0 ≡ err not_found)
    × ((id : Uuid) → 4 ≢ id → get s.guarded.messages_by_id id ≡ get stored.messages_by_id id)
unfolding get
get-delete_example = get-delete plain (text "2024-01-02") hello hello stored refl

get-update-delete_example :
    let s = (Service.delete plain memory_store (text "2024-01-02") hello (healthy stored)).1 in
    let s' = (Service.update memory_store hello (text " again ") s).1 in
    (back : Message) × ((Service.get memory_store 4 s').0 ≡ ok back) × (back.content ≡ text "again")
unfolding get normalize_content trim is_whitespace len
get-update-delete_example =
    get-update-delete plain (text "2024-01-02") hello hello stored refl (text " again ")
      (text "again") refl refl
