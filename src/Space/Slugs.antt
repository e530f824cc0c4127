-- ===== src/Space/Slugs.antt =====
-- What a slug looks like, which letters of a name it keeps, and that `slugify` leaves slugs alone.
use opencord_server.Base.{
  ℕ, ◌&&◌, ◌||◌, Bool, true, false, not, nat_eqb, leb, if◌then◌else◌, [], ◌∷◌, ◌++◌, Text, is_empty,
  is_ascii_digit, is_ascii_alphanumeric, All, ok, ◌≡◌, refl, arith, sym, ap, ◌∙◌, ◌↔◌, Bool-cases,
  inl, inr,
}
use mathlib.Core.List.{append-nil, append_assoc}
use opencord_server.Space.Slug.{
  to_lowercase, lower_chars, SlugState, dash, push_char, push_chars, pop_dashes, no_slug, slugify,
}

-- A lower-case letter or a digit of ASCII.
abbrev pub is_word_char : ℕ → Bool
is_word_char c = is_ascii_digit c || leb b'a' c && leb c b'z'

-- Words of letters and digits, one dash between two words; at an edge, a word must begin.
unfoldable pub well_formed : Bool → Text → Bool
well_formed edge [] = not edge
well_formed edge (c ∷ s) =
    let word = well_formed false s in
    let after_dash = well_formed true s in
    if nat_eqb c dash then not edge && after_dash else is_word_char c && word

abbrev pub IsSlug : Text → Type 0
IsSlug s = well_formed true s ≡ true

-- The same of a text that may end with a dash or be empty, and whether it does.
unfoldable well_begun : Bool → Text → Bool
well_begun edge [] = true
well_begun edge (c ∷ s) =
    let word = well_begun false s in
    let after_dash = well_begun true s in
    if nat_eqb c dash then not edge && after_dash else is_word_char c && word

unfoldable edge_after : Bool → Text → Bool
edge_after edge [] = edge
edge_after edge (c ∷ s) = edge_after (nat_eqb c dash) s

pop_dashes-well_formed :
    (edge : Bool) (s : Text)
    → well_begun edge s ≡ true
    → is_empty (pop_dashes s) ≡ false
    → well_formed edge (pop_dashes s) ≡ true
unfolding well_begun well_formed pop_dashes
pop_dashes-well_formed edge [] h k = cc
pop_dashes-well_formed edge (c ∷ s) h k = elim (Bool-cases (is_empty (pop_dashes s))) [
  | inl none_left ↦ ground (arith, none_left, empty (pop_dashes s) none_left)
  | inr some_left ↦
      ground (arith, some_left, pop_dashes-well_formed true s, pop_dashes-well_formed false s)
]
  where
    empty : (t : Text) → is_empty t ≡ true → t ≡ []
    empty [] e = refl
    empty (x ∷ t) e = cc

well_begun-concat :
    (edge : Bool) (s : Text) (c : ℕ)
    → well_begun edge (s ++ c ∷ [])
      ≡ (well_begun edge s && (if nat_eqb c dash then not (edge_after edge s) else is_word_char c))
unfolding well_begun edge_after
well_begun-concat edge [] c = ground arith
well_begun-concat edge (x ∷ s) c =
    ground (arith, well_begun-concat true s c, well_begun-concat false s c)

edge_after-concat :
    (edge : Bool) (s : Text) (c : ℕ) → edge_after edge (s ++ c ∷ []) ≡ nat_eqb c dash
unfolding edge_after
edge_after-concat edge [] c = refl
edge_after-concat edge (x ∷ s) c = edge_after-concat (nat_eqb x dash) s c

is_empty-concat : (s : Text) (c : ℕ) → is_empty (s ++ c ∷ []) ≡ false
is_empty-concat [] c = refl
is_empty-concat (x ∷ s) c = refl

-- What holds of the two variables of the loop.
record IsGood (s : SlugState) : Type 0 where
  begun : well_begun true s.slug ≡ true
  edge : edge_after true s.slug ≡ (s.previous_dash || is_empty s.slug)

abbrev NotUpper : ℕ → Type 0
NotUpper c = (leb b'A' c && leb c b'Z') ≡ false

push_char-IsGood : (s : SlugState) (c : ℕ) → NotUpper c → IsGood s → IsGood (push_char s c)
unfolding push_char is_ascii_alphanumeric is_ascii_digit
push_char-IsGood s c lower good = ground (
  arith,
  good,
  well_begun-concat true s.slug c,
  well_begun-concat true s.slug dash,
  edge_after-concat true s.slug c,
  edge_after-concat true s.slug dash,
  is_empty-concat s.slug c,
  is_empty-concat s.slug dash,
)

push_chars-IsGood :
    (s : SlugState) (cs : Text) → All NotUpper cs → IsGood s → IsGood (push_chars s cs)
unfolding push_chars
push_chars-IsGood s [] lower good = good
push_chars-IsGood s (c ∷ cs) (l, lower) good =
    push_chars-IsGood (push_char s c) cs lower (push_char-IsGood s c l good)

lower_chars-NotUpper : (name : Text) → All NotUpper (lower_chars name)
unfolding lower_chars to_lowercase
lower_chars-NotUpper [] = tt
lower_chars-NotUpper (c ∷ cs) = ground (arith, lower_chars-NotUpper cs)

no_slug-IsGood : IsGood no_slug
unfolding well_begun edge_after
no_slug-IsGood = record { begun = refl; edge = refl }

-- What the loop leaves of a name, before the check that something is left.
unfoldable pub slug_of : Text → Text
slug_of name = pop_dashes (push_chars no_slug (lower_chars name)).slug

pub slugify-slug_of :
    (name : Text) {s : Text} → slugify name ≡ ok s → (slug_of name ≡ s) × (is_empty s ≡ false)
unfolding slugify slug_of
slugify-slug_of name h =
    elim (Bool-cases (is_empty (pop_dashes (push_chars no_slug (lower_chars name)).slug))) [
      | inl e ↦ cc (rw e at h)
      | inr e ↦ ground (arith, rw e at h, e)
    ]

pub slug_of-IsSlug : (name : Text) → is_empty (slug_of name) ≡ false → IsSlug (slug_of name)
unfolding slug_of
slug_of-IsSlug name h =
    let good =
      push_chars-IsGood no_slug (lower_chars name) (lower_chars-NotUpper name) no_slug-IsGood in
    pop_dashes-well_formed true (push_chars no_slug (lower_chars name)).slug good.begun h

-- A slug passes through each step unchanged.
lower_chars-slug : (edge : Bool) (s : Text) → well_formed edge s ≡ true → lower_chars s ≡ s
unfolding lower_chars to_lowercase well_formed is_ascii_digit
lower_chars-slug edge [] h = refl
lower_chars-slug edge (c ∷ s) h = ground (arith, lower_chars-slug true s, lower_chars-slug false s)

pop_dashes-slug : (edge : Bool) (s : Text) → well_formed edge s ≡ true → pop_dashes s ≡ s
unfolding pop_dashes well_formed
pop_dashes-slug edge [] h = refl
pop_dashes-slug edge (c ∷ []) h = ground arith
pop_dashes-slug edge (c ∷ d ∷ s) h =
    ground (arith, pop_dashes-slug true (d ∷ s), pop_dashes-slug false (d ∷ s))

push_char-slug :
    (st : SlugState) (c : ℕ) (s : Text)
    → well_formed (st.previous_dash || is_empty st.slug) (c ∷ s) ≡ true
    → ((push_char st c).slug ≡ st.slug ++ c ∷ [])
      × (well_formed ((push_char st c).previous_dash || is_empty (push_char st c).slug) s ≡ true)
unfolding push_char well_formed is_ascii_alphanumeric is_ascii_digit
push_char-slug st c s h = ground (arith, is_empty-concat st.slug c, is_empty-concat st.slug dash)

push_chars-slug :
    (st : SlugState) (s : Text)
    → well_formed (st.previous_dash || is_empty st.slug) s ≡ true
    → (push_chars st s).slug ≡ st.slug ++ s
unfolding push_chars
push_chars-slug st [] h = sym (append-nil st.slug)
push_chars-slug st (c ∷ s) h =
    let (pushed, rest) = push_char-slug st c s h in
    push_chars-slug (push_char st c) s rest
    ∙ ap (λ t. t ++ s) pushed
    ∙ append_assoc st.slug (c ∷ []) s

slug-not_empty : (s : Text) → IsSlug s → is_empty s ≡ false
unfolding well_formed
slug-not_empty [] h = cc
slug-not_empty (c ∷ s) h = refl

slugify-slug : (s : Text) → IsSlug s → slugify s ≡ ok s
unfolding slugify
slugify-slug s h =
    let popped : pop_dashes (push_chars no_slug (lower_chars s)).slug ≡ s =
      ap (λ t. pop_dashes (push_chars no_slug t).slug) (lower_chars-slug true s h)
      ∙ ap pop_dashes (push_chars-slug no_slug s h)
      ∙ pop_dashes-slug true s h in
    rw (popped, slug-not_empty s h)

-- What `slugify` makes of a name is a slug: words of lower-case ASCII letters and digits with one
-- dash between two words, none at the ends, and not empty.
pub slugify-IsSlug : (name : Text) {s : Text} → slugify name ≡ ok s → IsSlug s
slugify-IsSlug name h =
    let (e, left) = slugify-slug_of name h in ground (arith, e, left, slug_of-IsSlug name)

-- The texts that `slugify` leaves as they are are exactly the slugs.
pub slugify-self_iff : (s : Text) → (slugify s ≡ ok s) ↔ IsSlug s
slugify-self_iff s = (slugify-IsSlug s, slugify-slug s)
