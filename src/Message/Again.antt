-- ===== src/Message/Again.antt =====
-- What the readers of src/domain/message.rs make of a field, they read again as it is.
use opencord_server.Base.{
  ℕ, Option, none, some, Text, text, trim, trim_idem, Result, ok, ◌≡◌, refl, arith, sym, ap, ◌∙◌,
  Option-cases, inl, inr, text_eq,
}
use mathlib.Core.Option
use opencord_server.Base.Time.{Chrono, ReadsBack}
use opencord_server.Base.Json.{
  Value, bool, number, string, array, null, object, Members, pos_int, get_member,
}
use opencord_server.Message.{MessageError}
use opencord_server.Message.Embed.{
  optional, text_within, optional_embed_text, url_from, optional_embed_url, timestamp_from,
  optional_embed_timestamp, color_from, optional_embed_color,
}
use opencord_server.Message.Parts.{color_value}

text_within-again :
    (n : ℕ) (msg msg' : Text) (v : Value) (o : Option Text)
    → text_within n msg v ≡ ok o
    → optional (text_within n msg') (Option.map string o) ≡ ok o
unfolding text_within optional
text_within-again n msg msg' (string raw) o h = ground (arith, h, trim_idem raw)
text_within-again n msg msg' null o h = cc
text_within-again n msg msg' (bool b) o h = cc
text_within-again n msg msg' (number b) o h = cc
text_within-again n msg msg' (array b) o h = cc
text_within-again n msg msg' (object b) o h = cc

module _ {A : Type 0} (read : Value → Result MessageError (Option A)) where
  -- What is read from a key that is not there or null is nothing.
  pub optional-read :
      (o : Option Value) (a : A)
      → optional read o ≡ ok (some a)
      → (v : Value) × (read v ≡ ok (some a))
  unfolding optional
  optional-read none a h = cc
  optional-read (some null) a h = cc
  optional-read (some (bool b)) a h = (bool b, h)
  optional-read (some (number b)) a h = (number b, h)
  optional-read (some (string b)) a h = (string b, h)
  optional-read (some (array b)) a h = (array b, h)
  optional-read (some (object b)) a h = (object b, h)

pub optional_embed_text-again :
    (m out : Members) (key : Text) (n : ℕ) (msg msg' : Text) (o : Option Text)
    → optional_embed_text m key n msg ≡ ok o
    → get_member out key ≡ Option.map string o
    → optional_embed_text out key n msg' ≡ ok o
unfolding optional_embed_text
optional_embed_text-again m out key n msg msg' none h e = rw e (unfold optional in refl)
optional_embed_text-again m out key n msg msg' (some s) h e =
    let (v, read) = optional-read (text_within n msg) (get_member m key) s h in
    rw e (text_within-again n msg msg' v (some s) read)

url_from-again :
    (msg : Text) (v : Value) (o : Option Text)
    → url_from msg v ≡ ok o
    → optional (url_from msg) (Option.map string o) ≡ ok o
unfolding url_from optional
url_from-again msg (string raw) o h = ground (arith, h, trim_idem raw)
url_from-again msg null o h = cc
url_from-again msg (bool b) o h = cc
url_from-again msg (number b) o h = cc
url_from-again msg (array b) o h = cc
url_from-again msg (object b) o h = cc

pub optional_embed_url-again :
    (m out : Members) (key msg : Text) (o : Option Text)
    → optional_embed_url m key msg ≡ ok o
    → get_member out key ≡ Option.map string o
    → optional_embed_url out key msg ≡ ok o
unfolding optional_embed_url
optional_embed_url-again m out key msg none h e = rw e (unfold optional in refl)
optional_embed_url-again m out key msg (some s) h e =
    let (v, read) = optional-read (url_from msg) (get_member m key) s h in
    rw e (url_from-again msg v (some s) read)

pub optional_embed_color-again :
    (m out : Members) (o : Option ℕ)
    → optional_embed_color m ≡ ok o
    → get_member out (text "color") ≡ Option.map color_value o
    → optional_embed_color out ≡ ok o
unfolding optional_embed_color
optional_embed_color-again m out none h e = rw e (unfold optional in refl)
optional_embed_color-again m out (some n) h e =
    let (v, read) = optional-read color_from (get_member m (text "color")) n h in
    rw e (again v read)
  where
    again :
        (v : Value)
        → color_from v ≡ ok (some n)
        → optional color_from (some (number (pos_int n))) ≡ ok (some n)
    again (number (pos_int k)) r = ground (arith, r)
    again v r = ground (arith, r)

timestamp_from-again :
    (chrono : Chrono) (v : Value) (s : Text)
    → ((time : chrono.DateTime) → some s ≡ some (chrono.to_rfc3339 time) → ReadsBack chrono time)
    → timestamp_from chrono v ≡ ok (some s)
    → optional (timestamp_from chrono) (some (string s)) ≡ ok (some s)
unfolding timestamp_from optional
timestamp_from-again chrono (string raw) s back r =
    elim (Option-cases (chrono.parse_from_rfc3339 (trim raw))) [
      | inl not_read ↦ cc (rw not_read at r)
      | inr (time, read) ↦
          let e : chrono.to_rfc3339 time ≡ s = ground (arith, rw read at r) in
          let b = back time (ap some (sym e)) in
          let reads' : chrono.parse_from_rfc3339 (trim s) ≡ some b.again = rw e at b.reads in
          rw reads' (ap (λ x. ok (some x)) (b.prints ∙ e))
    ]
timestamp_from-again chrono null s back r = cc
timestamp_from-again chrono (bool b) s back r = cc
timestamp_from-again chrono (number b) s back r = cc
timestamp_from-again chrono (array b) s back r = cc
timestamp_from-again chrono (object b) s back r = cc

pub optional_embed_timestamp-again :
    (chrono : Chrono) (m out : Members) (o : Option Text)
    → optional_embed_timestamp chrono m ≡ ok o
    → ((time : chrono.DateTime) → o ≡ some (chrono.to_rfc3339 time) → ReadsBack chrono time)
    → get_member out (text "timestamp") ≡ Option.map string o
    → optional_embed_timestamp chrono out ≡ ok o
unfolding optional_embed_timestamp
optional_embed_timestamp-again chrono m out none h back e = rw e (unfold optional in refl)
optional_embed_timestamp-again chrono m out (some s) h back e =
    let (v, read) = optional-read (timestamp_from chrono) (get_member m (text "timestamp")) s h in
    rw e (timestamp_from-again chrono v s back read)
