-- ===== src/Channel/Service.antt =====
-- src/domain/channel.rs: `ChannelService`, over any store.
use opencord_server.Base.{
  if◌then◌else◌, Bool, List, Option, none, some, Text, Uuid, text, Result, ok, err, ok_or,
}
use opencord_server.Base.Fallible as Fallible
use opencord_server.Base.Int.{ℤ, pos, ltb_ℤ}
use opencord_server.Base.Action.{Action, ◌>>=◌, ◌>>◌, lift, pure}
use opencord_server.Channel.{
  Channel, ChannelPatch, ChannelError, invalid_input, not_found, normalize_name, normalize_kind,
  normalize_topic, slugify,
}
use opencord_server.Channel.Store.{ChannelStore}

-- The four patches of `update`, in their order.
unfoldable pub patch_name : Option Text → Channel → Result ChannelError Channel
patch_name none c = ok c
patch_name (some raw) c =
    Fallible.◌>>=◌ (normalize_name raw)
      (λ name. Fallible.◌>>=◌ (slugify name) (λ slug. ok (record c { slug = slug; name = name })))

unfoldable pub patch_topic : Option Text → Channel → Result ChannelError Channel
patch_topic none c = ok c
patch_topic (some topic) c =
    Fallible.◌>>=◌ (normalize_topic (some topic)) (λ t. ok (record c { topic = t }))

unfoldable pub patch_position : Option ℤ → Channel → Result ChannelError Channel
patch_position none c = ok c
patch_position (some position) c =
    if ltb_ℤ position (pos 0)
    then err (invalid_input (text "channel position must be greater than or equal to 0"))
    else ok (record c { position = position })

unfoldable pub patch_private : Option Bool → Channel → Channel
patch_private none c = c
patch_private (some is_private) c = record c { is_private = is_private }

-- `update` up to the store: the channel that is written.
unfoldable pub patched : Channel → ChannelPatch → Result ChannelError Channel
unfolding patch_name patch_topic patch_position patch_private
patched existing patch = Fallible.◌>>=◌ (patch_name patch.name existing) (λ named.
    Fallible.◌>>=◌ (patch_topic patch.topic named) (λ about.
      Fallible.◌>>=◌ (patch_position patch.position about)
        (λ placed. ok (patch_private patch.is_private placed))))

-- `create` up to the store; `id` is the fresh `ids::new_uuid_v7()`. The name is checked first, the
-- kind before the slug.
unfoldable pub new_channel :
    Uuid → Uuid → Uuid → Option Text → Text → Option Text → Bool → Result ChannelError Channel
new_channel id organization_id space_id raw_kind raw_name raw_topic is_private =
    Fallible.◌>>=◌ (normalize_name raw_name) (λ name.
      Fallible.◌>>=◌ (normalize_kind raw_kind) (λ kind. Fallible.◌>>=◌ (slugify name) (λ slug.
        Fallible.◌>>=◌ (normalize_topic raw_topic) (λ topic. ok (record {
          id = id;
          organization_id = organization_id;
          space_id = space_id;
          kind = kind;
          name = name;
          slug = slug;
          position = pos 0;
          topic = topic;
          is_private = is_private;
        })))))

module _ (store : ChannelStore) where
  open store use {State}

  unfoldable pub create :
      Uuid
      → Uuid
      → Uuid
      → Option Text
      → Text
      → Option Text
      → Bool
      → Action State ChannelError Channel
  create id organization_id space_id kind name topic is_private = do
    channel ← lift (new_channel id organization_id space_id kind name topic is_private)
    store.create_channel channel
    pure channel

  unfoldable pub list_for_space : Uuid → Action State ChannelError (List Channel)
  list_for_space space_id = store.list_for_space space_id

  unfoldable pub get : Uuid → Action State ChannelError Channel
  get channel_id = do found ← store.get_channel channel_id; lift (ok_or not_found found)

  unfoldable pub update : Channel → ChannelPatch → Action State ChannelError Channel
  update existing patch = do channel ← lift (patched existing patch); store.update_channel channel

  unfoldable pub delete : Channel → Action State ChannelError Channel
  delete existing = do store.archive_channel existing.id; pure existing
