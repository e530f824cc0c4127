-- ===== src/Message/Fields.antt =====
-- The author and the fields of an embed, as src/domain/message.rs assembles them, are read again as
-- they are.
use opencord_server.Base.{
  suc, text_ltb, ℕ, ◌+◌, Bool, false, not, ltb, length, Option, none, some, Text, text, ok, ◌≡◌,
  refl, arith, ap, ◌∙◌, Bool-cases, inl, inr, contains, text_eq, text_eqb,
}
use mathlib.Core.Option
use opencord_server.Base.Fallible.{Result-cases}
use opencord_server.Base.Json.{
  Value, bool, number, string, array, null, object, Values, nil, cons, Members, end, get_member,
  insert_member, any_key, put, values_len, get_member-put_new, get_member-put_ne, any_key-put,
}
use opencord_server.Message.Embed.{
  has_other_key, optional_embed_text, optional_embed_url, author_keys, author_from,
  optional_embed_author, normalize_field, normalize_fields, fields_from, optional_embed_fields,
  field_keys, inline_from,
}
use opencord_server.Message.Again.{optional_embed_text-again, optional_embed_url-again}
use opencord_server.Message.Objects.{optional_counting-again}

abbrev author_text : Text
author_text = text "embed author name must be 256 characters or fewer"

abbrev author_url : Text
author_url = text "embed author url must be an HTTP or HTTPS URL up to 2048 characters"

abbrev author_icon : Text
author_icon = text "embed author icon_url must be an HTTP or HTTPS URL up to 2048 characters"

abbrev author_of : Text → Option Text → Option Text → Members
author_of name url icon =
    put (text "icon_url") (Option.map string icon)
      (put (text "url") (Option.map string url) (insert_member end (text "name") (string name)))

author_written :
    (total : ℕ) (m : Members) (name : Text) (url icon : Option Text)
    → optional_embed_text m (text "name") 256 author_text ≡ ok (some name)
    → optional_embed_url m (text "url") author_url ≡ ok url
    → optional_embed_url m (text "icon_url") author_icon ≡ ok icon
    → author_from total (object (author_of name url icon))
      ≡ ok (author_of name url icon, total + length name)
unfolding author_from any_key insert_member get_member text_eqb
author_written total m name url icon hn hu hi =
    let base = insert_member end (text "name") (string name) in
    let with_url = put (text "url") (Option.map string url) base in
    let out = author_of name url icon in
    let supported : Text → Bool = λ k. not (contains author_keys k) in
    let known : has_other_key author_keys out ≡ false =
      any_key-put supported (text "icon_url") (Option.map string icon) with_url
        (any_key-put supported (text "url") (Option.map string url) base refl refl) refl in
    let name_again =
      optional_embed_text-again m out (text "name") 256 _ author_text (some name) hn (
        get_member-put_ne (text "icon_url") (text "name") (Option.map string icon) with_url refl
        ∙ get_member-put_ne (text "url") (text "name") (Option.map string url) base refl) in
    let url_again = optional_embed_url-again m out (text "url") _ url hu (
      get_member-put_ne (text "icon_url") (text "url") (Option.map string icon) with_url refl
      ∙ get_member-put_new (text "url") (Option.map string url) base refl) in
    let icon_again = optional_embed_url-again m out (text "icon_url") _ icon hi (
      get_member-put_new (text "icon_url") (Option.map string icon) with_url
        (get_member-put_ne (text "url") (text "icon_url") (Option.map string url) base refl)) in
    rw (known, name_again, url_again, icon_again)

author_from-again :
    (total : ℕ) (v : Value) (f : Members) (t : ℕ)
    → author_from total v ≡ ok (f, t)
    → author_from total (object f) ≡ ok (f, t)
unfolding author_from
author_from-again total (object m) f t h = elim (Bool-cases (has_other_key author_keys m)) [
  | inl other ↦ cc (rw (other, author_from) at h)
  | inr known ↦ elim (Result-cases (optional_embed_text m (text "name") 256 author_text)) [
    | inl (e, bad) ↦ cc (rw (known, bad) at h)
    | inr (none, no_name) ↦ cc (rw (known, no_name) at h)
    | inr (some name, hn) ↦ elim (Result-cases (optional_embed_url m (text "url") author_url)) [
      | inl (e, bad) ↦ cc (rw (known, hn, bad) at h)
      | inr (url, hu) ↦ elim (Result-cases (optional_embed_url m (text "icon_url") author_icon)) [
        | inl (e, bad) ↦ cc (rw (known, hn, hu, bad) at h)
        | inr (icon, hi) ↦
            let h' : ok (author_of name url icon, total + length name) ≡ ok (f, t) =
              rw (known, hn, hu, hi) at h in
            let e : author_of name url icon ≡ f = ground (arith, h') in
            let e' : total + length name ≡ t = ground (arith, h') in
            rw (← e, ← e') (author_written total m name url icon hn hu hi)
      ]
    ]
  ]
]
author_from-again total null f t h = cc
author_from-again total (bool b) f t h = cc
author_from-again total (number b) f t h = cc
author_from-again total (array b) f t h = cc
author_from-again total (string b) f t h = cc

pub optional_embed_author-again :
    (m out : Members) (total t : ℕ) (o : Option Members)
    → optional_embed_author m total ≡ ok (o, t)
    → get_member out (text "author") ≡ Option.map object o
    → optional_embed_author out total ≡ ok (o, t)
unfolding optional_embed_author
optional_embed_author-again m out total t o h e = rw e (
    optional_counting-again object author_from total (get_member m (text "author")) o t
      (author_from-again total) (λ f. refl) h)

abbrev field_name : Text
field_name = text "embed field name must be 256 characters or fewer"

abbrev field_value : Text
field_value = text "embed field value must be 1024 characters or fewer"

abbrev field_of : Text → Text → Bool → Members
field_of name content inline =
    insert_member
      (insert_member (insert_member end (text "name") (string name)) (text "value")
        (string content))
      (text "inline") (bool inline)

field_written :
    (m : Members) (name content : Text) (inline : Bool)
    → optional_embed_text m (text "name") 256 field_name ≡ ok (some name)
    → optional_embed_text m (text "value") 1024 field_value ≡ ok (some content)
    → normalize_field (object (field_of name content inline))
      ≡ ok (object (field_of name content inline), length name + length content)
unfolding normalize_field any_key insert_member get_member text_eqb inline_from text_ltb
field_written m name content inline hn hc =
    let out = field_of name content inline in
    let name_again =
      optional_embed_text-again m out (text "name") 256 _ field_name (some name) hn refl in
    let value_again =
      optional_embed_text-again m out (text "value") 1024 _ field_value (some content) hc refl in
    rw (name_again, value_again)

normalize_field-again :
    (v w : Value) (n : ℕ) → normalize_field v ≡ ok (w, n) → normalize_field w ≡ ok (w, n)
unfolding normalize_field
normalize_field-again (object m) w n h = elim (Bool-cases (has_other_key field_keys m)) [
  | inl other ↦ cc (rw (other, normalize_field) at h)
  | inr known ↦ elim (Result-cases (optional_embed_text m (text "name") 256 field_name)) [
    | inl (e, bad) ↦ cc (rw (known, bad) at h)
    | inr (none, no_name) ↦ cc (rw (known, no_name) at h)
    | inr (some name, hn) ↦
        elim (Result-cases (optional_embed_text m (text "value") 1024 field_value)) [
          | inl (e, bad) ↦ cc (rw (known, hn, bad) at h)
          | inr (none, no_value) ↦ cc (rw (known, hn, no_value) at h)
          | inr (some content, hc) ↦
              elim (Result-cases (inline_from (get_member m (text "inline")))) [
                | inl (e, bad) ↦ cc (rw (known, hn, hc, bad) at h)
                | inr (inline, hi) ↦
                    let h' : ok
                          (object (field_of name content inline), length name + length content)
                        ≡ ok (w, n) =
                      rw (known, hn, hc, hi) at h in
                    let e : object (field_of name content inline) ≡ w = ground (arith, h') in
                    let e' : length name + length content ≡ n = ground (arith, h') in
                    rw (← e, ← e') (field_written m name content inline hn hc)
              ]
        ]
  ]
]
normalize_field-again null w n h = cc
normalize_field-again (bool b) w n h = cc
normalize_field-again (number b) w n h = cc
normalize_field-again (array b) w n h = cc
normalize_field-again (string b) w n h = cc

normalize_fields-again :
    (vs ws : Values) (total t : ℕ)
    → normalize_fields vs total ≡ ok (ws, t)
    → (normalize_fields ws total ≡ ok (ws, t)) × (values_len ws ≡ values_len vs)
unfolding normalize_fields
normalize_fields-again nil ws total t h =
    let e : nil ≡ ws = ground (arith, h) in
    let e' : total ≡ t = ground (arith, h) in rw (← e, ← e') (refl, refl)
normalize_fields-again (cons v vs) ws total t h = elim (Result-cases (normalize_field v)) [
  | inl (e, bad) ↦ cc (rw bad at h)
  | inr ((w, n), good) ↦ elim (Result-cases (normalize_fields vs (total + n))) [
    | inl (e, bad) ↦ cc (rw (good, bad) at h)
    | inr ((rest, t'), goods) ↦
        let h' : ok (cons w rest, t') ≡ ok (ws, t) = rw (good, goods) at h in
        let e : cons w rest ≡ ws = ground (arith, h') in
        let e' : t' ≡ t = ground (arith, h') in
        let (again, same) = normalize_fields-again vs rest (total + n) t' goods in
        rw (← e, ← e') (rw (normalize_field-again v w n good, again), ap (λ k. suc k) same)
  ]
]

fields_from-again :
    (total : ℕ) (v : Value) (ws : Values) (t : ℕ)
    → fields_from total v ≡ ok (ws, t)
    → fields_from total (array ws) ≡ ok (ws, t)
unfolding fields_from
fields_from-again total (array vs) ws t h = elim (Bool-cases (ltb 25 (values_len vs))) [
  | inl many ↦ cc (rw (many, fields_from) at h)
  | inr few ↦
      let (again, same) = normalize_fields-again vs ws total t (rw (few, fields_from) at h) in
      rw (same, few) again
]
fields_from-again total null ws t h = cc
fields_from-again total (bool b) ws t h = cc
fields_from-again total (number b) ws t h = cc
fields_from-again total (object b) ws t h = cc
fields_from-again total (string b) ws t h = cc

pub optional_embed_fields-again :
    (m out : Members) (total t : ℕ) (o : Option Values)
    → optional_embed_fields m total ≡ ok (o, t)
    → get_member out (text "fields") ≡ Option.map array o
    → optional_embed_fields out total ≡ ok (o, t)
unfolding optional_embed_fields
optional_embed_fields-again m out total t o h e = rw e (
    optional_counting-again array fields_from total (get_member m (text "fields")) o t
      (fields_from-again total) (λ f. refl) h)
