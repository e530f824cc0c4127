-- ===== src/Message/Embed.antt =====
-- src/domain/message.rs: the fields of an embed, one by one. What a function reads from an object may
-- be absent (`none`).
use opencord_server.Base.{
  ℕ, ◌+◌, Bool, false, not, ltb, if◌then◌else◌, List, [], ◌∷◌, length, Option, none, some, Text,
  text, trim, is_empty, contains, text_eq, text_eqb, Result, ok, err, ok_or,
}
use mathlib.Core.Option
use opencord_server.Base.Fallible.{◌>>=◌}
use opencord_server.Base.Time.{Chrono}
use opencord_server.Base.Json.{
  Value, bool, string, null, object, Values, nil, cons, Members, end, is_null, as_str, as_u64,
  as_array, as_object, values_len, get_member, insert_member, any_key, put,
}
use opencord_server.Message.{MessageError, invalid_input}
use opencord_server.Message.Content.{is_http_url}

abbrev pub invalid : {A : Type 0} → Text → Result MessageError A
invalid message = err (invalid_input message)

-- `None` for a key that is not there or null, else what is read from its value.
unfoldable pub optional :
    {A : Type 0}
    → (Value → Result MessageError (Option A))
    → Option Value
    → Result MessageError (Option A)
optional read none = ok none
optional read (some value) = if is_null value then ok none else read value

unfoldable pub text_within : ℕ → Text → Value → Result MessageError (Option Text)
text_within max_chars message value = elim (as_str value) [
  | none ↦ invalid message
  | some raw ↦
      let value' = trim raw in
      if is_empty value'
      then ok none
      else if ltb max_chars (length value')
      then invalid message
      else ok (some value')
]

unfoldable pub optional_embed_text : Members → Text → ℕ → Text → Result MessageError (Option Text)
unfolding optional text_within
optional_embed_text m key max_chars message =
    optional (text_within max_chars message) (get_member m key)

unfoldable pub url_from : Text → Value → Result MessageError (Option Text)
url_from message value = elim (as_str value) [
  | none ↦ invalid message
  | some raw ↦
      let value' = trim raw in
      if is_empty value'
      then ok none
      else if not (is_http_url value')
      then invalid message
      else ok (some value')
]

unfoldable pub optional_embed_url : Members → Text → Text → Result MessageError (Option Text)
unfolding optional url_from
optional_embed_url m key message = optional (url_from message) (get_member m key)

abbrev pub timestamp_message : Text
timestamp_message = text "embed timestamp must be RFC3339"

unfoldable pub timestamp_from : Chrono → Value → Result MessageError (Option Text)
timestamp_from chrono value = elim (as_str value) [
  | none ↦ invalid timestamp_message
  | some raw ↦ elim (chrono.parse_from_rfc3339 (trim raw)) [
    | none ↦ invalid timestamp_message
    | some time ↦ ok (some (chrono.to_rfc3339 time))
  ]
]

unfoldable pub optional_embed_timestamp : Chrono → Members → Result MessageError (Option Text)
unfolding optional timestamp_from
optional_embed_timestamp chrono m =
    optional (timestamp_from chrono) (get_member m (text "timestamp"))

abbrev pub color_message : Text
color_message = text "embed color must be an integer between 0 and 16777215"

unfoldable pub color_from : Value → Result MessageError (Option ℕ)
color_from value = elim (as_u64 value) [
  | none ↦ invalid color_message
  | some color ↦ if ltb 0xffffff color then invalid color_message else ok (some color)
]

unfoldable pub optional_embed_color : Members → Result MessageError (Option ℕ)
unfolding optional color_from
optional_embed_color m = optional color_from (get_member m (text "color"))

-- Has the object a key that is not among these?
abbrev pub has_other_key : List Text → Members → Bool
has_other_key keys m = any_key (λ k. not (contains keys k)) m

abbrev pub footer_keys : List Text
footer_keys = text "text" ∷ text "icon_url" ∷ []

-- The text, which is required, and the URL; the count of characters goes up by the text's.
unfoldable pub footer_from : ℕ → Value → Result MessageError (Members × ℕ)
footer_from total value = do
  footer ← ok_or (invalid_input (text "embed footer must be an object")) (as_object value)
  if has_other_key footer_keys footer
      then invalid (text "embed footer contains unsupported fields")
      else do
        found ←
            optional_embed_text footer (text "text") 2048
              (text "embed footer text must be 2048 characters or fewer")
        label ← ok_or (invalid_input (text "embed footer text is required")) found
        icon_url ←
            optional_embed_url footer (text "icon_url")
              (text "embed footer icon_url must be an HTTP or HTTPS URL up to 2048 characters")
        ok (
          put (text "icon_url") (Option.map string icon_url)
              (insert_member end (text "text") (string label)),
          total + length label,
        )

-- As `optional`, for the functions that also count characters.
unfoldable pub optional_counting :
    {A : Type 0}
    → (ℕ → Value → Result MessageError (A × ℕ))
    → ℕ
    → Option Value
    → Result MessageError (Option A × ℕ)
optional_counting read total none = ok (none, total)
optional_counting read total (some value) =
    if is_null value
    then ok (none, total)
    else (read total value >>= λ found. ok (some found.0, found.1))

unfoldable pub optional_embed_footer : Members → ℕ → Result MessageError (Option Members × ℕ)
unfolding optional_counting footer_from
optional_embed_footer m total = optional_counting footer_from total (get_member m (text "footer"))

abbrev pub media_keys : List Text
media_keys = text "url" ∷ []

unfoldable pub embed_media_url_message : Text → Text
embed_media_url_message label =
    if text_eqb label (text "embed image")
    then text "embed image url must be an HTTP or HTTPS URL up to 2048 characters"
    else if text_eqb label (text "embed thumbnail")
    then text "embed thumbnail url must be an HTTP or HTTPS URL up to 2048 characters"
    else text "embed media url must be an HTTP or HTTPS URL up to 2048 characters"

unfoldable pub media_from : Text → Value → Result MessageError (Option Members)
media_from label value = do
  media ← ok_or (invalid_input (text "embed media must be an object")) (as_object value)
  if has_other_key media_keys media
      then invalid (text "embed media contains unsupported fields")
      else do
        found ← optional_embed_url media (text "url") (embed_media_url_message label)
        url ← ok_or (invalid_input (embed_media_url_message label)) found
        ok (some (insert_member end (text "url") (string url)))

unfoldable pub optional_embed_media : Members → Text → Text → Result MessageError (Option Members)
unfolding optional media_from
optional_embed_media m key label = optional (media_from label) (get_member m key)

abbrev pub author_keys : List Text
author_keys = text "name" ∷ text "url" ∷ text "icon_url" ∷ []

unfoldable pub author_from : ℕ → Value → Result MessageError (Members × ℕ)
author_from total value = do
  author ← ok_or (invalid_input (text "embed author must be an object")) (as_object value)
  if has_other_key author_keys author
      then invalid (text "embed author contains unsupported fields")
      else do
        found ←
            optional_embed_text author (text "name") 256
              (text "embed author name must be 256 characters or fewer")
        name ← ok_or (invalid_input (text "embed author name is required")) found
        url ←
            optional_embed_url author (text "url")
              (text "embed author url must be an HTTP or HTTPS URL up to 2048 characters")
        icon_url ←
            optional_embed_url author (text "icon_url")
              (text "embed author icon_url must be an HTTP or HTTPS URL up to 2048 characters")
        ok (
          put (text "icon_url") (Option.map string icon_url) (
              put (text "url") (Option.map string url)
                (insert_member end (text "name") (string name))),
          total + length name,
        )

unfoldable pub optional_embed_author : Members → ℕ → Result MessageError (Option Members × ℕ)
unfolding optional_counting author_from
optional_embed_author m total = optional_counting author_from total (get_member m (text "author"))

abbrev pub field_keys : List Text
field_keys = text "name" ∷ text "value" ∷ text "inline" ∷ []

-- The match on `field.get("inline")`.
unfoldable pub inline_from : Option Value → Result MessageError Bool
inline_from none = ok false
inline_from (some null) = ok false
inline_from (some (bool inline)) = ok inline
inline_from (some _) = invalid (text "embed field inline must be a boolean")

-- One turn of the loop: the new field, and the characters that it adds.
unfoldable pub normalize_field : Value → Result MessageError (Value × ℕ)
unfolding inline_from
normalize_field value = do
  field ← ok_or (invalid_input (text "embed fields must contain objects")) (as_object value)
  if has_other_key field_keys field
      then invalid (text "embed fields contain unsupported fields")
      else do
        found_name ←
            optional_embed_text field (text "name") 256
              (text "embed field name must be 256 characters or fewer")
        name ← ok_or (invalid_input (text "embed field name is required")) found_name
        found_value ←
            optional_embed_text field (text "value") 1024
              (text "embed field value must be 1024 characters or fewer")
        content ← ok_or (invalid_input (text "embed field value is required")) found_value
        inline ← inline_from (get_member field (text "inline"))
        ok (
          object (
              insert_member
                (insert_member (insert_member end (text "name") (string name)) (text "value")
                  (string content))
                (text "inline") (bool inline)),
          length name + length content,
        )

unfoldable pub normalize_fields : Values → ℕ → Result MessageError (Values × ℕ)
normalize_fields nil total = ok (nil, total)
normalize_fields (cons value values) total = do
  (field, added) ← normalize_field value
  (fields, total') ← normalize_fields values (total + added)
  ok (cons field fields, total')

unfoldable pub fields_from : ℕ → Value → Result MessageError (Values × ℕ)
unfolding normalize_fields
fields_from total value = do
  fields ← ok_or (invalid_input (text "embed fields must be an array")) (as_array value)
  if ltb 25 (values_len fields)
      then invalid (text "embed fields must contain 25 or fewer fields")
      else do normalize_fields fields total

unfoldable pub optional_embed_fields : Members → ℕ → Result MessageError (Option Values × ℕ)
unfolding optional_counting fields_from
optional_embed_fields m total = optional_counting fields_from total (get_member m (text "fields"))
