-- ===== src/Channel.antt =====
-- src/domain/channel.rs: channels, and the checks on kinds, names and topics.
-- Children: the store, its in-memory implementation, the service, and what they keep true.
pub mod Store
pub mod Memory
pub mod Service
pub mod Commands
pub mod Index
pub mod Listing
mod Tests
use opencord_server.Base.{
  ℕ, ◌&&◌, ◌||◌, Bool, leb, ltb, if◌then◌else◌, Option, none, some, Text, Uuid, text, len, trim,
  is_empty, to_ascii_lowercase, text_eqb, collapse, Result, ok, err,
}
use opencord_server.Base.Int.{ℤ}
use opencord_server.Space.Slug.{lower_chars, push_char, push_chars, pop_dashes, no_slug}

pub record Channel : Type 0 where
  pub id : Uuid
  pub organization_id : Uuid
  pub space_id : Uuid
  pub kind : Text
  pub name : Text
  pub slug : Text
  pub position : ℤ
  pub topic : Option Text
  pub is_private : Bool

pub record ChannelPatch : Type 0 where
  pub name : Option Text
  pub topic : Option Text
  pub position : Option ℤ
  pub is_private : Option Bool

pub data ChannelError : Type 0 where
  invalid_input : Text → ChannelError
  slug_already_exists not_found store_unavailable : ChannelError

unfoldable pub status_code : ChannelError → ℕ
status_code (invalid_input _) = 400
status_code slug_already_exists = 409
status_code not_found = 404
status_code store_unavailable = 500

unfoldable pub error_code : ChannelError → Text
error_code (invalid_input _) = text "invalid_request"
error_code slug_already_exists = text "channel_slug_already_exists"
error_code not_found = text "channel_not_found"
error_code store_unavailable = text "store_unavailable"

abbrev pub text_kind : Text
text_kind = text "text"

abbrev pub voice_kind : Text
voice_kind = text "voice"

-- The match on the trimmed lower-case text.
unfoldable pub kind_of : Text → Result ChannelError Text
kind_of raw =
    let kind = to_ascii_lowercase (trim raw) in
    if is_empty kind || text_eqb kind text_kind
    then ok text_kind
    else if text_eqb kind voice_kind
    then ok voice_kind
    else err (invalid_input (text "channel kind must be text or voice"))

unfoldable pub normalize_kind : Option Text → Result ChannelError Text
unfolding kind_of
normalize_kind none = ok text_kind
normalize_kind (some raw) = kind_of raw

unfoldable pub normalize_name : Text → Result ChannelError Text
normalize_name raw =
    let name = collapse raw in
    if leb 1 (len name) && leb (len name) 100
    then ok name
    else err (invalid_input (text "channel name must be between 1 and 100 characters"))

unfoldable pub topic_of : Text → Result ChannelError (Option Text)
topic_of raw =
    let topic = collapse raw in
    if ltb 1024 (len topic)
    then err (invalid_input (text "channel topic must be 1024 characters or fewer"))
    else if is_empty topic
    then ok none
    else ok (some topic)

unfoldable pub normalize_topic : Option Text → Result ChannelError (Option Text)
unfolding topic_of
normalize_topic none = ok none
normalize_topic (some raw) = topic_of raw

-- The loop is that of src/domain/space.rs, with an error of its own.
unfoldable pub slugify : Text → Result ChannelError Text
unfolding lower_chars push_char push_chars pop_dashes
slugify name =
    let slug = pop_dashes (push_chars no_slug (lower_chars name)).slug in
    if is_empty slug
    then err (invalid_input (text "channel name must include letters or numbers"))
    else ok slug
