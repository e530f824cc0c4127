-- ===== src/Organization/Memory.antt =====
-- src/repositories/organization_memory.rs: the in-memory organization store.
use opencord_server.Base.{
  ◌&&◌, Bool, not, nat_eqb, leb, if◌then◌else◌, List, map, filter, filter_map, Option, none, some,
  Text, Uuid, text, text_eqb, text_leb, nat_eq, text_eq, pair_eq, ok, err, sort_by,
}
use opencord_server.Base.Action.{Action, Mutex, locked}
use opencord_server.Base.Map.{HashMap, get, insert, contains_key, values}
use opencord_server.Organization.{
  StoredOrganization, StoredOrganizationMember, CustomDomain, OrganizationWebhookPolicy,
  OrganizationMembership, OrganizationError, slug_already_exists, not_found, store_unavailable,
}

pub record MemoryOrganizationState : Type 0 where
  pub organizations_by_id : HashMap Uuid StoredOrganization
  pub organization_id_by_slug : HashMap Text Uuid
  pub members_by_org_user : HashMap (Uuid × Uuid) StoredOrganizationMember
  pub custom_domains_by_id : HashMap Uuid CustomDomain
  pub custom_domain_id_by_hostname : HashMap Text Uuid
  pub webhook_policies_by_organization : HashMap Uuid OrganizationWebhookPolicy

abbrev pub State : Type 0
State = Mutex MemoryOrganizationState

abbrev pub active : Text
active = text "active"

abbrev pub is_active : StoredOrganizationMember → Bool
is_active member = text_eqb member.status active

abbrev pub member_key : StoredOrganizationMember → Uuid × Uuid
member_key m = (m.organization_id, m.user_id)

-- The `OrganizationMembership` that several operations build.
abbrev pub membership : StoredOrganization → Text → OrganizationMembership
membership o role = record {
  id = o.id;
  slug = o.slug;
  name = o.name;
  role = role;
  plan = o.plan;
  deployment_mode = o.deployment_mode;
  primary_region = o.primary_region;
}

unfoldable pub create_organization_body :
    StoredOrganization
    → StoredOrganizationMember
    → Action MemoryOrganizationState OrganizationError (Unit {0})
create_organization_body o owner_member s =
    if contains_key s.organization_id_by_slug o.slug then (err slug_already_exists, s) else (
      ok tt,
      record s {
        organization_id_by_slug = insert s.organization_id_by_slug o.slug o.id;
        members_by_org_user = insert s.members_by_org_user (member_key owner_member) owner_member;
        organizations_by_id = insert s.organizations_by_id o.id o;
      },
    )

unfoldable pub create_organization :
    StoredOrganization → StoredOrganizationMember → Action State OrganizationError (Unit {0})
unfolding create_organization_body
create_organization o owner_member =
    locked store_unavailable (create_organization_body o owner_member)

abbrev organization_of :
    MemoryOrganizationState → StoredOrganizationMember → Option OrganizationMembership
organization_of s member = elim (get s.organizations_by_id member.organization_id) [
  | none ↦ none
  | some o ↦ some (membership o member.role)
]

unfoldable pub list_for_user : Uuid → Action State OrganizationError (List OrganizationMembership)
list_for_user user_id = locked store_unavailable (λ s. (
  ok (
      sort_by (λ (a b : OrganizationMembership). text_leb a.name b.name)
        (filter_map (organization_of s)
          (filter (λ m. nat_eqb m.user_id user_id && is_active m) (values s.members_by_org_user)))),
  s,
))

abbrev membership_of :
    Uuid → MemoryOrganizationState → StoredOrganizationMember → Option OrganizationMembership
membership_of organization_id s member = elim (get s.organizations_by_id organization_id) [
  | none ↦ none
  | some o ↦ some (membership o member.role)
]

unfoldable pub get_for_user_body :
    Uuid → Uuid → MemoryOrganizationState → Option OrganizationMembership
get_for_user_body user_id organization_id s =
    elim (get s.members_by_org_user (organization_id, user_id)) [
      | none ↦ none
      | some member ↦
          if not (is_active member) then none else membership_of organization_id s member
    ]

unfoldable pub get_for_user :
    Uuid → Uuid → Action State OrganizationError (Option OrganizationMembership)
unfolding get_for_user_body
get_for_user user_id organization_id =
    locked store_unavailable (λ s. (ok (get_for_user_body user_id organization_id s), s))

unfoldable pub active_member_user_ids : Uuid → Action State OrganizationError (List Uuid)
active_member_user_ids organization_id = locked store_unavailable (λ s.
    if not (contains_key s.organizations_by_id organization_id) then (err not_found, s) else (
      ok (
          sort_by leb (
            map (λ (m : StoredOrganizationMember). m.user_id)
              (filter (λ m. nat_eqb m.organization_id organization_id && is_active m)
                (values s.members_by_org_user)))),
      s,
    ))

unfoldable pub update_plan : Uuid → Text → Action State OrganizationError (Unit {0})
update_plan organization_id plan = locked store_unavailable (λ s.
    elim (get s.organizations_by_id organization_id) [
      | none ↦ (err not_found, s)
      | some o ↦ (
        ok tt,
        record s {
          organizations_by_id =
              insert s.organizations_by_id organization_id (record o { plan = plan });
        },
      )
    ])

-- `entry(key).and_modify(…).or_insert(member)`: the member that stands there afterwards.
unfoldable pub merge_member :
    StoredOrganizationMember → Option StoredOrganizationMember → StoredOrganizationMember
merge_member member none = member
merge_member member (some existing) = record existing { status = active }

unfoldable pub add_member_body :
    StoredOrganizationMember → Action MemoryOrganizationState OrganizationError (Unit {0})
unfolding merge_member
add_member_body member s =
    if not (contains_key s.organizations_by_id member.organization_id)
    then (err not_found, s)
    else (
      ok tt,
      record s {
        members_by_org_user =
            insert s.members_by_org_user (member_key member)
              (merge_member member (get s.members_by_org_user (member_key member)));
      },
    )

unfoldable pub add_member_if_missing :
    StoredOrganizationMember → Action State OrganizationError (Unit {0})
unfolding add_member_body
add_member_if_missing member = locked store_unavailable (add_member_body member)

unfoldable pub set_member_status : Uuid → Uuid → Text → Action State OrganizationError (Unit {0})
set_member_status organization_id user_id status = locked store_unavailable (λ s.
    elim (get s.members_by_org_user (organization_id, user_id)) [
      | none ↦ (err not_found, s)
      | some member ↦ (
        ok tt,
        record s {
          members_by_org_user =
              insert s.members_by_org_user (organization_id, user_id)
                (record member { status = status });
        },
      )
    ])
