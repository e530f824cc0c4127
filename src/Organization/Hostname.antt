-- ===== src/Organization/Hostname.antt =====
-- src/domain/organization.rs: host names, and the Host header.
use opencord_server.Base.{
  ℕ, ◌&&◌, ◌||◌, Bool, false, not, nat_eqb, ltb, leb, if◌then◌else◌, List, [], ◌∷◌, all, any,
  Option, none, some, Text, text, len, is_empty, trim, to_ascii_lowercase, is_ascii_alphanumeric,
  is_ascii_digit, Result, ok, err,
}
use opencord_server.Organization.{OrganizationError, invalid_input}

-- `trim_end_matches('.')`
unfoldable pub trim_end_dots : Text → Text
trim_end_dots [] = []
trim_end_dots (c ∷ s) =
    let rest = trim_end_dots s in if nat_eqb c b'.' && is_empty rest then [] else c ∷ rest

abbrev push_front : ℕ → List Text → List Text
push_front c [] = (c ∷ []) ∷ []
push_front c (w ∷ ws) = (c ∷ w) ∷ ws

-- `split(c)`: always at least one piece.
unfoldable pub split : ℕ → Text → List Text
split d [] = [] ∷ []
split d (c ∷ s) = let pieces = split d s in if nat_eqb c d then [] ∷ pieces else push_front c pieces

-- `ends_with`
unfoldable pub ends_with : ℕ → Text → Bool
ends_with d [] = false
ends_with d (c ∷ []) = nat_eqb c d
ends_with d (c ∷ x ∷ s) = ends_with d (x ∷ s)

abbrev pub begins_with : ℕ → Text → Bool
begins_with d [] = false
begins_with d (c ∷ s) = nat_eqb c d

unfoldable pub valid_label : Text → Bool
valid_label label =
    not (is_empty label)
    && leb (len label) 63
    && not (begins_with b'-' label)
    && not (ends_with b'-' label)
    && all (λ c. is_ascii_alphanumeric c || nat_eqb c b'-') label

abbrev bad_hostname : OrganizationError
bad_hostname =
    invalid_input (text "custom domain hostname must be a valid fully qualified hostname")

unfoldable pub normalize_hostname : Text → Result OrganizationError Text
unfolding trim_end_dots split valid_label
normalize_hostname raw =
    let hostname = to_ascii_lowercase (trim_end_dots (trim raw)) in
    if ltb 253 (len hostname) || not (any (nat_eqb b'.') hostname)
    then err bad_hostname
    else if all valid_label (split b'.' hostname)
    then ok hostname
    else err bad_hostname

-- `split(c).next()`
abbrev first_piece : List Text → Text
first_piece [] = []
first_piece (w ∷ ws) = w

-- `rsplit_once(c)`
unfoldable pub rsplit_once : ℕ → Text → Option (Text × Text)
rsplit_once d [] = none
rsplit_once d (c ∷ s) = elim (rsplit_once d s) [
  | some p ↦ some (c ∷ p.0, p.1)
  | none ↦ if nat_eqb c d then some ([], s) else none
]

-- What stands before a port of digits, or else the whole.
abbrev without_port : Text → Option (Text × Text) → Text
without_port host none = host
without_port host (some p) = if not (is_empty p.1) && all is_ascii_digit p.1 then p.0 else host

-- `strip_prefix('[')` decides between the two.
abbrev normalize_host : Text → Result OrganizationError Text
normalize_host [] = err (invalid_input (text "host header is required"))
normalize_host (c ∷ rest) =
    let bracketed = normalize_hostname (first_piece (split b']' rest)) in
    let plain = normalize_hostname (without_port (c ∷ rest) (rsplit_once b':' (c ∷ rest))) in
    if nat_eqb c b'[' then bracketed else plain

unfoldable pub normalize_host_header : Text → Result OrganizationError Text
unfolding normalize_hostname rsplit_once split
normalize_host_header header = normalize_host (trim header)
