-- ===== src/Message/Parts.antt =====
-- src/domain/message.rs: `normalize_embed` and `normalize_embeds`. `Parts` holds the variables of the
-- function; the embed is assembled from them in the order of the insertions.
use opencord_server.Base.{
  ℕ, ◌+◌, Bool, not, ltb, nat_eqb, if◌then◌else◌, List, [], ◌∷◌, length, Option, none, some, Text,
  text, trim, contains, text_eq, text_eqb, Result, ok, ok_or,
}
use mathlib.Core.Option
use opencord_server.Base.Fallible.{◌>>=◌, ◌>>◌}
use opencord_server.Base.Time.{Chrono}
use opencord_server.Base.Json.{
  Value, number, string, array, object, Values, Members, end, pos_int, as_str, as_object,
  get_member, insert_member, members_len, any_key, put,
}
use opencord_server.Message.{MessageError, invalid_input}
use opencord_server.Message.Embed.{
  invalid, optional_embed_text, optional_embed_url, optional_embed_timestamp, optional_embed_color,
  optional_embed_footer, optional_embed_media, optional_embed_author, optional_embed_fields,
}

abbrev pub embed_keys : List Text
embed_keys =
    text "title"
    ∷ text "type"
    ∷ text "description"
    ∷ text "url"
    ∷ text "timestamp"
    ∷ text "color"
    ∷ text "footer"
    ∷ text "image"
    ∷ text "thumbnail"
    ∷ text "author"
    ∷ text "fields"
    ∷ []

unfoldable pub is_supported_embed_key : Text → Bool
is_supported_embed_key key = contains embed_keys key

abbrev pub count : Option Text → ℕ
count none = 0
count (some s) = length s

abbrev pub rich : Text
rich = text "rich"

-- `type` may be left out.
unfoldable pub check_type : Option Value → Result MessageError (Unit {0})
check_type none = ok tt
check_type (some value) = elim (as_str value) [
  | none ↦ invalid (text "embed type must be rich")
  | some kind ↦
      if not (text_eqb (trim kind) rich) then invalid (text "embed type must be rich") else ok tt
]

pub record Parts : Type 0 where
  pub title : Option Text
  pub description : Option Text
  pub url : Option Text
  pub timestamp : Option Text
  pub color : Option ℕ
  pub footer : Option Members
  pub image : Option Members
  pub thumbnail : Option Members
  pub author : Option Members
  pub fields : Option Values
  pub total_text : ℕ

unfoldable pub read_parts : Chrono → Members → Result MessageError Parts
read_parts chrono m = do
  title ←
      optional_embed_text m (text "title") 256 (text "embed title must be 256 characters or fewer")
  check_type (get_member m (text "type"))
  description ←
      optional_embed_text m (text "description") 4096
        (text "embed description must be 4096 characters or fewer")
  url ←
      optional_embed_url m (text "url")
        (text "embed url must be an HTTP or HTTPS URL up to 2048 characters")
  timestamp ← optional_embed_timestamp chrono m
  color ← optional_embed_color m
  (footer, with_footer) ← optional_embed_footer m (count title + count description)
  image ← optional_embed_media m (text "image") (text "embed image")
  thumbnail ← optional_embed_media m (text "thumbnail") (text "embed thumbnail")
  (author, with_author) ← optional_embed_author m with_footer
  (fields, total_text) ← optional_embed_fields m with_author
  ok (record {
    title = title;
    description = description;
    url = url;
    timestamp = timestamp;
    color = color;
    footer = footer;
    image = image;
    thumbnail = thumbnail;
    author = author;
    fields = fields;
    total_text = total_text;
  })

abbrev pub color_value : ℕ → Value
color_value n = number (pos_int n)

unfoldable pub assemble : Parts → Members
assemble p = put (text "fields") (Option.map array p.fields) (
    put (text "author") (Option.map object p.author) (
      put (text "thumbnail") (Option.map object p.thumbnail) (
        put (text "image") (Option.map object p.image) (
          put (text "footer") (Option.map object p.footer) (
            put (text "color") (Option.map color_value p.color) (
              put (text "timestamp") (Option.map string p.timestamp) (
                put (text "url") (Option.map string p.url) (
                  put (text "description") (Option.map string p.description) (
                    insert_member (put (text "title") (Option.map string p.title) end) (text "type")
                      (string rich))))))))))

unfoldable pub finish : Parts → Result MessageError Value
unfolding assemble
finish p =
    if nat_eqb (members_len (assemble p)) 1
    then invalid (text "message embeds must include at least one supported field")
    else if ltb 6000 p.total_text
    then invalid (text "embed total text must be 6000 characters or fewer")
    else ok (object (assemble p))

unfoldable pub normalize_embed : Chrono → Value → Result MessageError Value
unfolding read_parts finish is_supported_embed_key
normalize_embed chrono embed = do
  m ← ok_or (invalid_input (text "message embeds must be objects")) (as_object embed)
  if any_key (λ k. not (is_supported_embed_key k)) m
      then invalid (text "message embeds contain unsupported fields")
      else do parts ← read_parts chrono m; finish parts

-- `into_iter().map(normalize_embed).collect()`
unfoldable pub normalize_all : Chrono → List Value → Result MessageError (List Value)
unfolding normalize_embed
normalize_all chrono [] = ok []
normalize_all chrono (embed ∷ embeds) = do
  first ← normalize_embed chrono embed
  rest ← normalize_all chrono embeds
  ok (first ∷ rest)

unfoldable pub normalize_embeds : Chrono → List Value → Result MessageError (List Value)
unfolding normalize_all
normalize_embeds chrono embeds =
    if ltb 10 (length embeds)
    then invalid (text "message embeds must contain 10 or fewer embeds")
    else normalize_all chrono embeds
