-- ===== src/Space/Slug.antt =====
-- src/domain/space.rs: `slugify`.
use opencord_server.Base.{
  ℕ, ◌+◌, ◌&&◌, Bool, true, false, not, nat_eqb, leb, if◌then◌else◌, List, [], ◌∷◌, ◌++◌, Text,
  text, is_empty, is_ascii_alphanumeric, Result, ok, err,
}
use opencord_server.Space.{SpaceError, invalid_input}

-- `char::to_lowercase`, as far as `slugify` can tell. Besides A to Z, two code points have ASCII
-- letters in their lower case: the Kelvin sign, and I with a dot above. What any other one becomes
-- lies outside ASCII, as the code point itself does, and `slugify` treats all of that alike.
unfoldable pub to_lowercase : ℕ → List ℕ
to_lowercase c =
    if leb b'A' c && leb c b'Z'
    then (c + 32) ∷ []
    else if nat_eqb c 0x212a
    then b'k' ∷ []
    else if nat_eqb c 0x130
    then b'i' ∷ 0x307 ∷ []
    else c ∷ []

-- `flat_map(char::to_lowercase)`
unfoldable pub lower_chars : Text → Text
unfolding to_lowercase
lower_chars [] = []
lower_chars (c ∷ cs) = to_lowercase c ++ lower_chars cs

-- The two variables of the loop.
pub record SlugState : Type 0 where
  pub slug : Text
  pub previous_dash : Bool

abbrev pub dash : ℕ
dash = b'-'

unfoldable pub push_char : SlugState → ℕ → SlugState
push_char s character =
    if is_ascii_alphanumeric character
    then record { slug = s.slug ++ character ∷ []; previous_dash = false }
    else if not s.previous_dash && not (is_empty s.slug)
    then record { slug = s.slug ++ dash ∷ []; previous_dash = true }
    else s

unfoldable pub push_chars : SlugState → Text → SlugState
push_chars s [] = s
push_chars s (c ∷ cs) = push_chars (push_char s c) cs

-- `while slug.ends_with('-') { slug.pop(); }`
unfoldable pub pop_dashes : Text → Text
pop_dashes [] = []
pop_dashes (c ∷ s) =
    let rest = pop_dashes s in if nat_eqb c dash && is_empty rest then [] else c ∷ rest

abbrev pub no_slug : SlugState
no_slug = record { slug = []; previous_dash = false }

unfoldable pub slugify : Text → Result SpaceError Text
unfolding lower_chars push_char push_chars pop_dashes
slugify name =
    let slug = pop_dashes (push_chars no_slug (lower_chars name)).slug in
    if is_empty slug
    then err (invalid_input (text "space name must include letters or numbers"))
    else ok slug
