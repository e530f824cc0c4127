-- ===== src/Space/Letters.antt =====
-- Which characters of a name end up in its slug, and which names have one.
use opencord_server.Base.{
  ℕ, Bool, true, false, not, [], ◌∷◌, ◌++◌, Text, is_empty, is_ascii_digit, is_ascii_alphanumeric,
  filter, any, Result, ok, err, ◌≡◌, refl, arith, ◌∙◌, ap, sym, Bool-cases, inl, inr,
}
use mathlib.Core.List.{append-nil, append_assoc}
use opencord_server.Space.Slug.{
  lower_chars, SlugState, dash, push_char, push_chars, pop_dashes, no_slug, slugify,
}
use opencord_server.Space.Slugs.{slug_of, slugify-slug_of, slug_of-IsSlug, IsSlug, well_formed}

-- The ASCII letters and digits of a text.
abbrev pub letters : Text → Text
letters = filter is_ascii_alphanumeric

letters-append : (s t : Text) → letters (s ++ t) ≡ letters s ++ letters t
letters-append [] t = refl
letters-append (c ∷ s) t = ground (arith, letters-append s t)

letters-pop_dashes : (s : Text) → letters (pop_dashes s) ≡ letters s
unfolding pop_dashes is_ascii_alphanumeric is_ascii_digit
letters-pop_dashes [] = refl
letters-pop_dashes (c ∷ s) = elim (Bool-cases (is_empty (pop_dashes s))) [
  | inl e ↦ ground (arith, e, letters-pop_dashes s, empty (pop_dashes s) e)
  | inr e ↦ ground (arith, e, letters-pop_dashes s)
]
  where
    empty : (t : Text) → is_empty t ≡ true → t ≡ []
    empty [] e = refl
    empty (x ∷ t) e = cc

no_letter : is_ascii_alphanumeric dash ≡ false
unfolding is_ascii_alphanumeric is_ascii_digit
no_letter = refl

letters-push_char :
    (s : SlugState) (c : ℕ) → letters (push_char s c).slug ≡ letters s.slug ++ letters (c ∷ [])
unfolding push_char
letters-push_char s c = ground (
  arith,
  letters-append s.slug (c ∷ []),
  letters-append s.slug (dash ∷ []),
  no_letter,
  append-nil (letters s.slug),
)

letters-push_chars :
    (s : SlugState) (cs : Text) → letters (push_chars s cs).slug ≡ letters s.slug ++ letters cs
unfolding push_chars
letters-push_chars s [] = sym (append-nil (letters s.slug))
letters-push_chars s (c ∷ cs) =
    letters-push_chars (push_char s c) cs
    ∙ ap (λ t. t ++ letters cs) (letters-push_char s c)
    ∙ append_assoc (letters s.slug) (letters (c ∷ [])) (letters cs)
    ∙ ap (λ t. letters s.slug ++ t) (sym (letters-append (c ∷ []) cs))

letters-slug_of : (name : Text) → letters (slug_of name) ≡ letters (lower_chars name)
unfolding slug_of
letters-slug_of name =
    letters-pop_dashes (push_chars no_slug (lower_chars name)).slug
    ∙ letters-push_chars no_slug (lower_chars name)

-- The slug of a name has the ASCII letters and digits of the lower-case name, all of them and in
-- their order.
pub letters-slugify :
    (name : Text) {s : Text} → slugify name ≡ ok s → letters s ≡ letters (lower_chars name)
letters-slugify name h = ground (arith, slugify-slug_of name h, letters-slug_of name)

abbrev pub is_ok : {E A : Type 0} → Result E A → Bool
is_ok (ok _) = true
is_ok (err _) = false

any-letters : (s : Text) → any is_ascii_alphanumeric s ≡ not (is_empty (letters s))
any-letters [] = refl
any-letters (c ∷ s) = ground (arith, any-letters s)

slug-letters : (s : Text) → IsSlug s → is_empty (letters s) ≡ false
unfolding well_formed is_ascii_alphanumeric is_ascii_digit
slug-letters [] h = cc
slug-letters (c ∷ s) h = ground arith

is_empty-slug_of : (name : Text) → is_empty (slug_of name) ≡ is_empty (letters (slug_of name))
is_empty-slug_of name = elim (Bool-cases (is_empty (slug_of name))) [
  | inl e ↦ ground (arith, e, nothing (slug_of name) e)
  | inr e ↦ ground (arith, e, slug-letters (slug_of name) (slug_of-IsSlug name e))
]
  where
    nothing : (t : Text) → is_empty t ≡ true → is_empty (letters t) ≡ true
    nothing [] e = refl
    nothing (x ∷ t) e = cc

slugify-is_empty : (name : Text) → is_ok (slugify name) ≡ not (is_empty (slug_of name))
unfolding slugify slug_of
slugify-is_empty name = ground arith

-- A name has a slug exactly when its lower case has an ASCII letter or digit.
pub slugify-is_ok :
    (name : Text) → is_ok (slugify name) ≡ any is_ascii_alphanumeric (lower_chars name)
slugify-is_ok name = ground (
  arith,
  slugify-is_empty name,
  is_empty-slug_of name,
  letters-slug_of name,
  any-letters (lower_chars name),
)
