-- ===== src/Message/Objects.antt =====
-- The Option.map object inside an embed, as src/domain/message.rs assembles them, are read again as they are.
use opencord_server.Base.{
  ℕ, ◌+◌, false, not, length, Option, none, some, Text, text, Result, ok, ◌≡◌, refl, arith,
  Bool-cases, inl, inr, contains, text_eq, text_eqb,
}
use mathlib.Core.Option
use opencord_server.Base.Fallible.{Result-cases}
use opencord_server.Base.Json.{
  Value, bool, number, string, array, null, object, Members, end, get_member, insert_member,
  any_key, put, is_null, get_member-put_new, get_member-put_ne, any_key-put,
}
use opencord_server.Message.{MessageError}
use opencord_server.Message.Embed.{
  has_other_key, optional, optional_embed_text, optional_embed_url, footer_keys, footer_from,
  optional_counting, optional_embed_footer, media_from, optional_embed_media, media_keys,
  embed_media_url_message,
}
use opencord_server.Message.Again.{
  optional_embed_text-again, optional_embed_url-again, optional-read,
}

-- A reader that counts, and that reads again what it has assembled, counts the same again.
pub optional_counting-again :
    {A : Type 0} (as_value : A → Value) (read : ℕ → Value → Result MessageError (A × ℕ)) (total : ℕ)
    (v : Option Value) (o : Option A) (t : ℕ)
    → ((v : Value) (f : A) (t : ℕ) → read total v ≡ ok (f, t) → read total (as_value f) ≡ ok (f, t))
    → ((f : A) → is_null (as_value f) ≡ false)
    → optional_counting read total v ≡ ok (o, t)
    → optional_counting read total (Option.map as_value o) ≡ ok (o, t)
unfolding optional_counting
optional_counting-again as_value read total none o t again full h = ground (arith, h)
optional_counting-again as_value read total (some v) o t again full h =
    elim (Bool-cases (is_null v)) [
      | inl nothing ↦ ground (arith, rw nothing at h)
      | inr something ↦ elim (Result-cases (read total v)) [
        | inl (e, bad) ↦ cc (rw (something, bad) at h)
        | inr ((f, t'), good) ↦
            let h' : ok (some f, t') ≡ ok (o, t) = rw (something, good) at h in
            ground (arith, h', full f, again v f t' good)
      ]
    ]

-- Each of these shows how an object that was assembled is read.
footer_written :
    (total : ℕ) (m : Members) (label : Text) (icon : Option Text)
    → optional_embed_text m
        (text "text")
        2048
        (text "embed footer text must be 2048 characters or fewer")
      ≡ ok (some label)
    → optional_embed_url m
        (text "icon_url")
        (text "embed footer icon_url must be an HTTP or HTTPS URL up to 2048 characters")
      ≡ ok icon
    → let f =
        put
          (text "icon_url")
          (Option.map string icon)
          (insert_member end (text "text") (string label)) in
      footer_from total (object f) ≡ ok (f, total + length label)
unfolding footer_from any_key insert_member get_member text_eqb
footer_written total m label icon ht hu =
    let base = insert_member end (text "text") (string label) in
    let f = put (text "icon_url") (Option.map string icon) base in
    let known : has_other_key footer_keys f ≡ false =
      any_key-put (λ k. not (contains footer_keys k)) (text "icon_url") (Option.map string icon)
        base refl refl in
    let label_again =
      optional_embed_text-again m f (text "text") 2048 _
        (text "embed footer text must be 2048 characters or fewer") (some label) ht
        (get_member-put_ne (text "icon_url") (text "text") (Option.map string icon) base refl) in
    let icon_again =
      optional_embed_url-again m f (text "icon_url") _ icon hu
        (get_member-put_new (text "icon_url") (Option.map string icon) base refl) in
    rw (known, label_again, icon_again)

footer_from-again :
    (total : ℕ) (v : Value) (f : Members) (t : ℕ)
    → footer_from total v ≡ ok (f, t)
    → footer_from total (object f) ≡ ok (f, t)
unfolding footer_from
footer_from-again total (object m) f t h = elim (Bool-cases (has_other_key footer_keys m)) [
  | inl other ↦ cc (rw (other, footer_from) at h)
  | inr known ↦
      elim (Result-cases (
        optional_embed_text m (text "text") 2048
          (text "embed footer text must be 2048 characters or fewer"))) [
            | inl (e, bad) ↦ cc (rw (known, bad) at h)
            | inr (none, no_label) ↦ cc (rw (known, no_label) at h)
            | inr (some label, ht) ↦
                elim (Result-cases (
                  optional_embed_url m (text "icon_url") (
                    text
                      "embed footer icon_url must be an HTTP or HTTPS URL up to 2048 characters"))) [
                        | inl (e, bad) ↦ cc (rw (known, ht, bad) at h)
                        | inr (icon, hu) ↦
                            let written = footer_written total m label icon ht hu in
                            let f' =
                              put (text "icon_url") (Option.map string icon)
                                (insert_member end (text "text") (string label)) in
                            let h' : ok (f', total + length label) ≡ ok (f, t) =
                              rw (known, ht, hu) at h in
                            let e : f' ≡ f = ground (arith, h') in
                            let e' : total + length label ≡ t = ground (arith, h') in
                            rw (← e, ← e') written
                      ]
          ]
]
footer_from-again total null f t h = cc
footer_from-again total (bool b) f t h = cc
footer_from-again total (number b) f t h = cc
footer_from-again total (array b) f t h = cc
footer_from-again total (string b) f t h = cc

pub optional_embed_footer-again :
    (m out : Members) (total t : ℕ) (o : Option Members)
    → optional_embed_footer m total ≡ ok (o, t)
    → get_member out (text "footer") ≡ Option.map object o
    → optional_embed_footer out total ≡ ok (o, t)
unfolding optional_embed_footer
optional_embed_footer-again m out total t o h e = rw e (
    optional_counting-again object footer_from total (get_member m (text "footer")) o t
      (footer_from-again total) (λ f. refl) h)

media_from-again :
    (label : Text) (v : Value) (f : Members)
    → media_from label v ≡ ok (some f)
    → media_from label (object f) ≡ ok (some f)
unfolding media_from any_key insert_member get_member text_eqb
media_from-again label (object m) f h = elim (Bool-cases (has_other_key media_keys m)) [
  | inl other ↦ cc (rw (other, media_from) at h)
  | inr known ↦
      elim (Result-cases (optional_embed_url m (text "url") (embed_media_url_message label))) [
        | inl (e, bad) ↦ cc (rw (known, bad) at h)
        | inr (none, no_url) ↦ cc (rw (known, no_url) at h)
        | inr (some url, hu) ↦
            let f' = insert_member end (text "url") (string url) in
            let h' : ok (some f') ≡ ok (some f) = rw (known, hu) at h in
            let e : f' ≡ f = ground (arith, h') in
            let again = optional_embed_url-again m f' (text "url") _ (some url) hu refl in
            rw (← e) (rw again)
      ]
]
media_from-again label null f h = cc
media_from-again label (bool b) f h = cc
media_from-again label (number b) f h = cc
media_from-again label (array b) f h = cc
media_from-again label (string b) f h = cc

pub optional_embed_media-again :
    (m out : Members) (key label : Text) (o : Option Members)
    → optional_embed_media m key label ≡ ok o
    → get_member out key ≡ Option.map object o
    → optional_embed_media out key label ≡ ok o
unfolding optional_embed_media
optional_embed_media-again m out key label none h e = rw e (unfold optional in refl)
optional_embed_media-again m out key label (some f) h e =
    let (v, read) = optional-read (media_from label) (get_member m key) f h in
    rw e (unfold optional in media_from-again label v f read)
