-- ===== src/Organization/Members.antt =====
-- Members of organizations: whom `require_admin` lets through once an organization was created.
use opencord_server.Base.{
  ◌||◌, if◌then◌else◌, nat_eqb, Option, none, some, Uuid, Text, text, text_eqb, text_eqb_iff,
  nat_eq, text_eq, pair_eq, pair_eqb_iff, Result, ok, err, ◌≡◌, refl, arith, Bool-cases,
  Option-cases, inl, inr,
}
use opencord_server.Base.Fallible.{Result-cases}
use opencord_server.Base.Map.{get, contains_key, get-insert}
use opencord_server.Base.Action.{healthy}
use opencord_server.Organization.{
  StoredOrganization, StoredOrganizationMember, OrganizationMembership, OrganizationError,
  not_found, forbidden,
}
use opencord_server.Organization.Input.{normalize_name, slugify}
use opencord_server.Organization.Memory
use opencord_server.Organization.Memory.{
  MemoryOrganizationState, active, member_key, create_organization_body, get_for_user_body,
}
use opencord_server.Organization.Domain.{memory_store}
use opencord_server.Organization.Service
use opencord_server.Organization.Service.{require_admin, create_with_options}

-- What `require_admin` answers, by what the in-memory store says of the user.
abbrev admitted : Option OrganizationMembership → Result OrganizationError OrganizationMembership
admitted none = err not_found
admitted (some m) =
    if text_eqb m.role (text "owner") || text_eqb m.role (text "admin") then ok m else err forbidden

require_admin-get_for_user :
    (user_id organization_id : Uuid) (s : MemoryOrganizationState)
    → (require_admin memory_store user_id organization_id (healthy s)).0
      ≡ admitted (get_for_user_body user_id organization_id s)
unfolding require_admin Service.get_for_user Memory.get_for_user
require_admin-get_for_user user_id organization_id s =
    elim (Option-cases (get_for_user_body user_id organization_id s)) [
      | inl missing ↦ rw missing refl
      | inr (m, found) ↦ rw found (ground arith)
    ]

create_organization-get_for_user :
    (o : StoredOrganization) (m : StoredOrganizationMember) (s s' : MemoryOrganizationState)
    (user org : Uuid)
    → m.status ≡ active
    → m.organization_id ≡ o.id
    → get s.members_by_org_user (o.id, user) ≡ none
    → create_organization_body o m s ≡ (ok tt, s')
    → get_for_user_body user org s' ≡ (
        if nat_eqb org o.id
        then (if nat_eqb user m.user_id then some (Memory.membership o m.role) else none)
        else get_for_user_body user org s)
unfolding create_organization_body get_for_user_body
create_organization-get_for_user o m s s' user org here own fresh created =
    elim (Bool-cases (contains_key s.organization_id_by_slug o.slug)) [
      | inl taken ↦ cc (rw taken at created)
      | inr free ↦
          let created' = rw free at created in
          ground (
            arith,
            created',
            here,
            own,
            fresh,
            get-insert s.members_by_org_user (member_key m) (org, user) m,
            get-insert s.organizations_by_id o.id org o,
            pair_eqb_iff (member_key m) (org, user),
            text_eqb_iff active active,
          )
    ]

-- When an organization was created over the in-memory store under an id that no stored member has:
-- its creator passes `require_admin` with the membership that the call returned, any other user is
-- refused there as not found, and for every other organization `require_admin` answers what it
-- answered before.
pub require_admin-create_with_options :
    (id owner_id : Uuid) (raw plan deployment_mode primary_region : Text)
    (s s' : MemoryOrganizationState) (r : OrganizationMembership) (user org : Uuid)
    → get s.members_by_org_user (id, user) ≡ none
    → create_with_options memory_store id owner_id raw plan deployment_mode primary_region
        (healthy s)
      ≡ (ok r, healthy s')
    → (require_admin memory_store user org (healthy s')).0 ≡ (
        if nat_eqb org id
        then (if nat_eqb user owner_id then ok r else err not_found)
        else (require_admin memory_store user org (healthy s)).0)
unfolding create_organization_body create_with_options Memory.create_organization
require_admin-create_with_options id owner_id raw plan deployment_mode primary_region s s' r user
      org fresh h =
    elim (Result-cases (normalize_name raw)) [
      | inl (e, bad) ↦ cc (rw bad at h)
      | inr (name, good) ↦ elim (Result-cases (slugify name)) [
        | inl (e, bad) ↦ cc (rw (good, bad) at h)
        | inr (slug, good') ↦
            let o : StoredOrganization = record {
              id = id;
              slug = slug;
              name = name;
              plan = plan;
              deployment_mode = deployment_mode;
              primary_region = primary_region;
            } in
            let m : StoredOrganizationMember = record {
              organization_id = id;
              user_id = owner_id;
              role = text "owner";
              status = active;
            } in
            elim (Bool-cases (contains_key s.organization_id_by_slug slug)) [
              | inl taken ↦ cc (rw (good, good', taken) at h)
              | inr free ↦
                  let h' = rw (good, good', free) at h in
                  let created : create_organization_body o m s ≡ (ok tt, s') =
                    rw free (ground (arith, h')) in
                  let found =
                    create_organization-get_for_user o m s s' user org refl refl fresh created in
                  ground (
                    arith,
                    h',
                    found,
                    require_admin-get_for_user user org s,
                    require_admin-get_for_user user org s',
                    text_eqb_iff (text "owner") (text "owner"),
                  )
            ]
      ]
    ]
