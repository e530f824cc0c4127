-- ===== src/Organization/Input.antt =====
-- src/domain/organization.rs: the checks on names, roles, plans and regions. `slugify` is the loop of
-- src/domain/space.rs with an error of its own.
use opencord_server.Base.{
  ◌&&◌, ◌||◌, leb, nat_eqb, if◌then◌else◌, List, [], ◌∷◌, all, Text, text, len, is_empty, trim,
  collapse, to_ascii_lowercase, is_ascii_alphanumeric, contains, text_eq, Result, ok, err,
}
use opencord_server.Space.Slug.{lower_chars, push_chars, pop_dashes, no_slug}
use opencord_server.Organization.{OrganizationError, invalid_input}

unfoldable pub normalize_name : Text → Result OrganizationError Text
normalize_name raw =
    let name = collapse raw in
    if leb 2 (len name) && leb (len name) 100
    then ok name
    else err (invalid_input (text "organization name must be between 2 and 100 characters"))

unfoldable pub slugify : Text → Result OrganizationError Text
slugify name =
    let slug = pop_dashes (push_chars no_slug (lower_chars name)).slug in
    if is_empty slug
    then err (invalid_input (text "organization name must include letters or numbers"))
    else ok slug

-- The match on the trimmed lower-case text, in four functions.
unfoldable one_of : List Text → Text → Text → Result OrganizationError Text
one_of allowed message raw =
    let value = to_ascii_lowercase (trim raw) in
    if contains allowed value then ok value else err (invalid_input message)

unfoldable pub normalize_member_role : Text → Result OrganizationError Text
unfolding one_of
normalize_member_role =
    one_of (text "owner" ∷ text "admin" ∷ text "member" ∷ text "guest" ∷ [])
      (text "organization member role must be owner, admin, member, or guest")

unfoldable pub normalize_member_status : Text → Result OrganizationError Text
unfolding one_of
normalize_member_status =
    one_of (text "active" ∷ text "inactive" ∷ [])
      (text "organization member status must be active or inactive")

unfoldable pub normalize_plan : Text → Result OrganizationError Text
unfolding one_of
normalize_plan =
    one_of (text "free" ∷ text "team" ∷ text "business" ∷ text "enterprise" ∷ [])
      (text "tenant plan must be free, team, business, or enterprise")

unfoldable pub normalize_deployment_mode : Text → Result OrganizationError Text
unfolding one_of
normalize_deployment_mode =
    one_of (text "self_hosted" ∷ text "cloud" ∷ [])
      (text "tenant deployment_mode must be self_hosted or cloud")

unfoldable pub normalize_region : Text → Result OrganizationError Text
normalize_region raw =
    let region = to_ascii_lowercase (trim raw) in
    if leb 2 (len region)
      && leb (len region) 64
      && all (λ c. is_ascii_alphanumeric c || nat_eqb c b'-') region
    then ok region
    else err (
        invalid_input
          (text "tenant primary_region must be 2 to 64 lowercase letters, numbers, or hyphens"))
