-- ===== src/Message/Content.antt =====
-- src/domain/message.rs: the checks on contents, components, webhook names and mentions.
use opencord_server.Base.{
  ◌&&◌, ◌||◌, Bool, not, leb, ltb, if◌then◌else◌, List, [], ◌∷◌, any, length, Option, none, some,
  Text, Uuid, text, len, trim, is_empty, starts_with, contains, nat_eq, Result, ok, err,
}
use opencord_server.Base.Json.{Value, is_object}
use opencord_server.Message.{MessageError, invalid_input}

-- `(min_len..=4000).contains(&content.len())`, where an empty content is let through on demand.
unfoldable pub normalize_content : Text → Bool → Result MessageError Text
normalize_content raw allow_empty =
    let content = trim raw in
    if leb (if allow_empty then 0 else 1) (len content) && leb (len content) 4000
    then ok content
    else err (
        invalid_input (
          text
            "message content must be between 1 and 4000 characters unless attachments are present"))

unfoldable pub normalize_components : List Value → Result MessageError (List Value)
normalize_components components =
    if ltb 5 (length components)
    then err (invalid_input (text "message components must contain 5 or fewer action rows"))
    else if any (λ c. not (is_object c)) components
    then err (invalid_input (text "message components must be objects"))
    else ok components

unfoldable pub webhook_username_of : Text → Result MessageError (Option Text)
webhook_username_of raw =
    let username = trim raw in
    if is_empty username
    then ok none
    else if ltb 80 (len username)
    then err (invalid_input (text "webhook username must be 80 characters or fewer"))
    else ok (some username)

unfoldable pub normalize_webhook_username : Option Text → Result MessageError (Option Text)
unfolding webhook_username_of
normalize_webhook_username none = ok none
normalize_webhook_username (some raw) = webhook_username_of raw

unfoldable pub is_http_url : Text → Bool
is_http_url value =
    leb (len value) 2048
    && (starts_with value (text "https://") || starts_with value (text "http://"))

unfoldable pub webhook_avatar_url_of : Text → Result MessageError (Option Text)
webhook_avatar_url_of raw =
    let url = trim raw in
    if is_empty url
    then ok none
    else if ltb 2048 (len url)
        || not (starts_with url (text "https://") || starts_with url (text "http://"))
    then err (
        invalid_input
          (text "webhook avatar_url must be an HTTP or HTTPS URL up to 2048 characters"))
    else ok (some url)

unfoldable pub normalize_webhook_avatar_url : Option Text → Result MessageError (Option Text)
unfolding webhook_avatar_url_of
normalize_webhook_avatar_url none = ok none
normalize_webhook_avatar_url (some raw) = webhook_avatar_url_of raw

-- `filter(|id| seen.insert(*id))`
unfoldable pub first_seen : List Uuid → List Uuid → List Uuid
first_seen seen [] = []
first_seen seen (id ∷ ids) =
    let again = first_seen seen ids in
    let rest = first_seen (id ∷ seen) ids in if contains seen id then again else id ∷ rest

unfoldable pub normalize_mention_ids : List Uuid → List Uuid
unfolding first_seen
normalize_mention_ids ids = first_seen [] ids
