-- ===== src/Message/Service.antt =====
-- src/domain/message.rs: `MessageService`, over any store.
use opencord_server.Base.{
  Bool, false, List, [], Option, none, some, Text, Uuid, text, Result, ok, ok_or,
}
use opencord_server.Base.Fallible as Fallible
use opencord_server.Base.Time.{Chrono}
use opencord_server.Base.Json.{Value}
use opencord_server.Base.Action.{Action, ◌>>=◌, ◌>>◌, lift, pure}
use opencord_server.Message.{Message, CreateMessageInput, MessageError, not_found}
use opencord_server.Message.Content.{
  normalize_content, normalize_components, normalize_webhook_username, normalize_webhook_avatar_url,
  normalize_mention_ids,
}
use opencord_server.Message.Parts.{normalize_embeds}
use opencord_server.Message.Store.{MessageStore}

-- `create_with_embeds` up to the store; `id` is the fresh `ids::new_uuid_v7()`, `now` the clock.
module _ (chrono : Chrono) where
  unfoldable pub new_message :
      Uuid → chrono.DateTime → CreateMessageInput → Result MessageError Message
  new_message id now input = Fallible.◌>>=◌ (normalize_embeds chrono input.embeds) (λ embeds.
      Fallible.◌>>=◌ (normalize_components input.components) (λ components.
        Fallible.◌>>=◌ (normalize_content input.content input.allow_empty_content) (λ content.
          Fallible.◌>>=◌ (normalize_webhook_username input.webhook_username) (λ username.
            Fallible.◌>>=◌ (normalize_webhook_avatar_url input.webhook_avatar_url) (λ avatar_url.
              ok (record {
                id = id;
                organization_id = input.organization_id;
                space_id = input.space_id;
                channel_id = input.channel_id;
                author_user_id = input.author_user_id;
                content = content;
                content_format = text "plain";
                embeds = embeds;
                components = components;
                webhook_username = username;
                webhook_avatar_url = avatar_url;
                mention_user_ids = normalize_mention_ids input.mention_user_ids;
                mention_role_ids = normalize_mention_ids input.mention_role_ids;
                mention_everyone = input.mention_everyone;
                reply_to_message_id = input.reply_to_message_id;
                edited_at = none;
                deleted_at = none;
                created_at = chrono.to_rfc3339 now;
              }))))))

-- `if let Some(components) = components`
unfoldable pub patch_components : Option (List Value) → Message → Result MessageError Message
patch_components none message = ok message
patch_components (some raw) message =
    Fallible.◌>>=◌ (normalize_components raw)
      (λ components. ok (record message { components = components }))

abbrev pub edited : Message → Message
edited message = record message { edited_at = some (text "now") }

-- `update_with_mentions` up to the store.
unfoldable pub patched :
    Message
    → Text
    → List Uuid
    → List Uuid
    → Bool
    → Option (List Value)
    → Result MessageError Message
unfolding patch_components
patched message raw user_ids role_ids everyone components =
    Fallible.◌>>=◌ (normalize_content raw false) (λ content.
      Fallible.◌>>=◌
        (patch_components components (record message {
          content = content;
          mention_user_ids = normalize_mention_ids user_ids;
          mention_role_ids = normalize_mention_ids role_ids;
          mention_everyone = everyone;
        }))
        (λ next. ok (edited next)))

abbrev pub deleted : Text → Message → Message
deleted now message = record message { deleted_at = some now }

module _ (chrono : Chrono) (store : MessageStore) where
  open store use {State}

  unfoldable pub create_with_embeds :
      Uuid → chrono.DateTime → CreateMessageInput → Action State MessageError Message
  create_with_embeds id now input = do
    message ← lift (new_message chrono id now input)
    store.create_message message
    pure message

  unfoldable pub create :
      Uuid
      → chrono.DateTime
      → Uuid
      → Option Uuid
      → Uuid
      → Uuid
      → Text
      → Bool
      → Action State MessageError Message
  unfolding create_with_embeds
  create id now organization_id space_id channel_id author_user_id content allow_empty_content =
      create_with_embeds id now (record {
        organization_id = organization_id;
        space_id = space_id;
        channel_id = channel_id;
        author_user_id = author_user_id;
        content = content;
        allow_empty_content = allow_empty_content;
        embeds = [];
        components = [];
        webhook_username = none;
        webhook_avatar_url = none;
        mention_user_ids = [];
        mention_role_ids = [];
        mention_everyone = false;
        reply_to_message_id = none;
      })

  unfoldable pub delete : chrono.DateTime → Message → Action State MessageError (Unit {0})
  delete now message = store.delete_message (deleted (chrono.to_rfc3339 now) message)

module _ (store : MessageStore) where
  open store use {State}

  unfoldable pub list_for_channel : Uuid → Action State MessageError (List Message)
  list_for_channel channel_id = store.list_for_channel channel_id

  unfoldable pub list_for_organization_between :
      Uuid → Text → Text → Action State MessageError (List Message)
  list_for_organization_between organization_id from to =
      store.list_for_organization_between organization_id from to

  unfoldable pub get : Uuid → Action State MessageError Message
  get message_id = do found ← store.get_message message_id; lift (ok_or not_found found)

  unfoldable pub update_with_mentions :
      Message
      → Text
      → List Uuid
      → List Uuid
      → Bool
      → Option (List Value)
      → Action State MessageError Message
  update_with_mentions message content user_ids role_ids everyone components = do
    next ← lift (patched message content user_ids role_ids everyone components)
    store.update_message next

  unfoldable pub update : Message → Text → Action State MessageError Message
  unfolding update_with_mentions
  update message content = update_with_mentions message content [] [] false none
