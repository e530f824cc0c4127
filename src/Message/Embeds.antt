-- ===== src/Message/Embeds.antt =====
-- Normalising an embed of src/domain/message.rs a second time changes nothing.
use opencord_server.Base.{
  Bool, trim, is_whitespace, ℕ, ◌+◌, false, not, Option, some, Text, text, text_eq, text_eqb,
  Result, ok, err, ◌≡◌, refl, arith, ap, ◌∙◌, Bool-cases, inl, inr,
}
use mathlib.Core.Option
use opencord_server.Base.Fallible.{Result-cases}
use opencord_server.Base.Time.{Chrono, ReadsBack}
use opencord_server.Base.Json.{
  Value, string, object, array, null, bool, number, Members, end, get_member, any_key, as_object,
  get_member-put, get_member-insert_member, any_key-put, any_key-insert_member, or_else-none,
}
use opencord_server.Message.{MessageError}
use opencord_server.Message.Embed.{
  optional_embed_text, optional_embed_url, optional_embed_timestamp, optional_embed_color,
  optional_embed_footer, optional_embed_media, optional_embed_author, optional_embed_fields,
}
use opencord_server.Message.Parts.{
  Parts, count, rich, check_type, read_parts, assemble, finish, normalize_embed,
  is_supported_embed_key, color_value,
}
use opencord_server.Message.Again.{
  optional_embed_text-again, optional_embed_url-again, optional_embed_color-again,
  optional_embed_timestamp-again,
}
use opencord_server.Message.Objects.{optional_embed_footer-again, optional_embed_media-again}
use opencord_server.Message.Fields.{optional_embed_author-again, optional_embed_fields-again}

ruleset lookups = (get_member-put, get_member-insert_member, or_else-none)

-- What stands under each key of an embed that was assembled.
record Shows (p : Parts) (m : Members) : Type 0 where
  title : get_member m (text "title") ≡ Option.map string p.title
  kind : get_member m (text "type") ≡ some (string rich)
  description : get_member m (text "description") ≡ Option.map string p.description
  url : get_member m (text "url") ≡ Option.map string p.url
  timestamp : get_member m (text "timestamp") ≡ Option.map string p.timestamp
  color : get_member m (text "color") ≡ Option.map color_value p.color
  footer : get_member m (text "footer") ≡ Option.map object p.footer
  image : get_member m (text "image") ≡ Option.map object p.image
  thumbnail : get_member m (text "thumbnail") ≡ Option.map object p.thumbnail
  author : get_member m (text "author") ≡ Option.map object p.author
  fields : get_member m (text "fields") ≡ Option.map array p.fields

assemble-Shows : (p : Parts) → Shows p (assemble p)
unfolding assemble text_eqb get_member
assemble-Shows p = record {
  title = simp lookups;
  kind = simp lookups;
  description = simp lookups;
  url = simp lookups;
  timestamp = simp lookups;
  color = simp lookups;
  footer = simp lookups;
  image = simp lookups;
  thumbnail = simp lookups;
  author = simp lookups;
  fields = simp lookups;
}

assemble-supported :
    (p : Parts) → any_key (λ k. not (is_supported_embed_key k)) (assemble p) ≡ false
unfolding assemble any_key is_supported_embed_key text_eqb
assemble-supported p =
    let supported : Text → Bool = λ k. not (is_supported_embed_key k) in
    any_key-put supported (text "fields") _ _
      (any_key-put supported (text "author") _ _
        (any_key-put supported (text "thumbnail") _ _
          (any_key-put supported (text "image") _ _
            (any_key-put supported (text "footer") _ _
              (any_key-put supported (text "color") _ _
                (any_key-put supported (text "timestamp") _ _
                  (any_key-put supported (text "url") _ _
                    (any_key-put supported (text "description") _ _
                      (any_key-insert_member supported _ (text "type") _
                        (any_key-put supported (text "title") _ end refl refl) refl)
                      refl)
                    refl)
                  refl)
                refl)
              refl)
            refl)
          refl)
        refl)
      refl

-- The count that a reader leaves.
abbrev count_after : Result MessageError (Option Members × ℕ) → ℕ
count_after (err _) = 0
count_after (ok (o, t)) = t

module _ (chrono : Chrono) (m : Members) (p : Parts) (h : read_parts chrono m ≡ ok p) where
  abbrev with_footer : ℕ
  with_footer = count_after (optional_embed_footer m (count p.title + count p.description))

  abbrev with_author : ℕ
  with_author = count_after (optional_embed_author m with_footer)

  record WasRead : Type 0 where
    title :
        optional_embed_text m
          (text "title")
          256
          (text "embed title must be 256 characters or fewer")
        ≡ ok p.title
    description :
        optional_embed_text m
          (text "description")
          4096
          (text "embed description must be 4096 characters or fewer")
        ≡ ok p.description
    url :
        optional_embed_url m
          (text "url")
          (text "embed url must be an HTTP or HTTPS URL up to 2048 characters")
        ≡ ok p.url
    timestamp : optional_embed_timestamp chrono m ≡ ok p.timestamp
    color : optional_embed_color m ≡ ok p.color
    image : optional_embed_media m (text "image") (text "embed image") ≡ ok p.image
    thumbnail : optional_embed_media m (text "thumbnail") (text "embed thumbnail") ≡ ok p.thumbnail
    footer :
        optional_embed_footer m (count p.title + count p.description) ≡ ok (p.footer, with_footer)
    author : optional_embed_author m with_footer ≡ ok (p.author, with_author)
    fields : optional_embed_fields m with_author ≡ ok (p.fields, p.total_text)

  was_read : WasRead
  unfolding read_parts
  was_read = record {
    title = ground (arith, h);
    description = ground (arith, h);
    url = ground (arith, h);
    timestamp = ground (arith, h);
    color = ground (arith, h);
    image = ground (arith, h);
    thumbnail = ground (arith, h);
    footer = ground (arith, h);
    author = ground (arith, h);
    fields = ground (arith, h);
  }

rich_is_accepted : check_type (some (string rich)) ≡ ok tt
unfolding check_type trim is_whitespace text_eqb
rich_is_accepted = refl

-- The timestamp of an embed, if it has one, is the print of a time that reads back.
abbrev pub TimestampReadsBack : Chrono → Parts → Type 0
TimestampReadsBack chrono p =
    (time : chrono.DateTime) → p.timestamp ≡ some (chrono.to_rfc3339 time) → ReadsBack chrono time

read_parts-again :
    (chrono : Chrono) (m : Members) (p : Parts)
    → read_parts chrono m ≡ ok p
    → TimestampReadsBack chrono p
    → read_parts chrono (assemble p) ≡ ok p
unfolding read_parts
read_parts-again chrono m p h back =
    let out = assemble p in
    let at = assemble-Shows p in
    let was = was_read chrono m p h in
    let kind : check_type (get_member out (text "type")) ≡ ok tt =
      ap check_type at.kind ∙ rich_is_accepted in
    rw (
      optional_embed_text-again m out (text "title") 256 _ _ p.title was.title at.title,
      kind,
      optional_embed_text-again m out (text "description") 4096 _ _ p.description was.description
          at.description,
      optional_embed_url-again m out (text "url") _ p.url was.url at.url,
      optional_embed_timestamp-again chrono m out p.timestamp was.timestamp back at.timestamp,
      optional_embed_color-again m out p.color was.color at.color,
      optional_embed_footer-again m out _ _ p.footer was.footer at.footer,
      optional_embed_media-again m out (text "image") _ p.image was.image at.image,
      optional_embed_media-again m out (text "thumbnail") _ p.thumbnail was.thumbnail at.thumbnail,
      optional_embed_author-again m out _ _ p.author was.author at.author,
      optional_embed_fields-again m out _ _ p.fields was.fields at.fields,
    )

-- How an embed that is accepted came about.
record Accepted (chrono : Chrono) (embed out : Value) : Type 0 where
  members : Members
  parts : Parts
  was_object : as_object embed ≡ some members
  were_read : read_parts chrono members ≡ ok parts
  finished : finish parts ≡ ok out
  is_out : out ≡ object (assemble parts)

normalize_embed-Accepted :
    (chrono : Chrono) (embed out : Value)
    → normalize_embed chrono embed ≡ ok out
    → Accepted chrono embed out
unfolding normalize_embed finish
normalize_embed-Accepted chrono (object m) out h =
    elim (Bool-cases (any_key (λ k. not (is_supported_embed_key k)) m)) [
      | inl other ↦ cc (rw other at h)
      | inr known ↦ elim (Result-cases (read_parts chrono m)) [
        | inl (e, bad) ↦ cc (rw (known, bad) at h)
        | inr (p, good) ↦
            let finished = rw (known, good) at h in
            record {
              members = m;
              parts = p;
              was_object = refl;
              were_read = good;
              finished = finished;
              is_out = ground (arith, finished);
            }
      ]
    ]
normalize_embed-Accepted chrono null out h = cc
normalize_embed-Accepted chrono (bool b) out h = cc
normalize_embed-Accepted chrono (number b) out h = cc
normalize_embed-Accepted chrono (array b) out h = cc
normalize_embed-Accepted chrono (string b) out h = cc

-- An embed that was normalised is accepted again and not changed any more: if `normalize_embed`
-- turns a value into an embed, and the timestamp of that embed, if it has one, prints a time that
-- chrono reads back, then `normalize_embed` turns that embed into itself.
pub normalize_embed_idem :
    (chrono : Chrono) (embed out : Value)
    → normalize_embed chrono embed ≡ ok out
    → ((m : Members) (time : chrono.DateTime)
        → out ≡ object m
        → get_member m (text "timestamp") ≡ some (string (chrono.to_rfc3339 time))
        → ReadsBack chrono time)
    → normalize_embed chrono out ≡ ok out
normalize_embed_idem chrono embed out h back =
    let a = normalize_embed-Accepted chrono embed out h in
    let at = assemble-Shows a.parts in
    let back' : TimestampReadsBack chrono a.parts =
      λ time e. back (assemble a.parts) time (a.is_out) (at.timestamp ∙ ap (Option.map string) e) in
    let again = read_parts-again chrono a.members a.parts a.were_read back' in
    rw a.is_out (
      unfold normalize_embed in
      rw (assemble-supported a.parts, again) (a.finished ∙ ap ok a.is_out))
