-- ===== src/Organization/Domain.antt =====
-- src/repositories/organization_memory.rs: custom domains and webhook policies, and the whole store.
use opencord_server.Base.{
  true, not, nat_eqb, if◌then◌else◌, List, filter, Option, none, some, Text, Uuid, text, text_eqb,
  text_leb, nat_eq, text_eq, ok, err, sort_by,
}
use opencord_server.Base.Action.{Action, locked}
use opencord_server.Base.Map.{get, insert, contains_key, values}
use opencord_server.Organization.{
  StoredOrganization, CustomDomain, CustomDomainTenant, OrganizationWebhookPolicy,
  OrganizationError, invalid_input, custom_domain_already_exists, not_found, store_unavailable,
}
use opencord_server.Organization.Memory.{
  MemoryOrganizationState, State, active, create_organization, list_for_user, get_for_user,
  active_member_user_ids, update_plan, add_member_if_missing, set_member_status,
}
use opencord_server.Organization.Store.{OrganizationStore}

unfoldable pub create_custom_domain_body :
    CustomDomain → Action MemoryOrganizationState OrganizationError (Unit {0})
create_custom_domain_body d s =
    if not (contains_key s.organizations_by_id d.organization_id)
    then (err not_found, s)
    else if contains_key s.custom_domain_id_by_hostname d.hostname
    then (err custom_domain_already_exists, s)
    else (
      ok tt,
      record s {
        custom_domain_id_by_hostname = insert s.custom_domain_id_by_hostname d.hostname d.id;
        custom_domains_by_id = insert s.custom_domains_by_id d.id d;
      },
    )

unfoldable pub create_custom_domain : CustomDomain → Action State OrganizationError (Unit {0})
unfolding create_custom_domain_body
create_custom_domain d = locked store_unavailable (create_custom_domain_body d)

unfoldable pub list_custom_domains : Uuid → Action State OrganizationError (List CustomDomain)
list_custom_domains organization_id = locked store_unavailable (λ s.
    if not (contains_key s.organizations_by_id organization_id) then (err not_found, s) else (
      ok (
          sort_by (λ (a b : CustomDomain). text_leb a.hostname b.hostname)
            (filter (λ d. nat_eqb d.organization_id organization_id)
              (values s.custom_domains_by_id))),
      s,
    ))

unfoldable pub verify_custom_domain_body :
    Uuid → Uuid → Text → Action MemoryOrganizationState OrganizationError CustomDomain
verify_custom_domain_body organization_id custom_domain_id verification_token s =
    elim (get s.custom_domains_by_id custom_domain_id) [
      | none ↦ (err not_found, s)
      | some d ↦
          let verified = record d { status = active } in
          if not (nat_eqb d.organization_id organization_id)
          then (err not_found, s)
          else if not (text_eqb d.verification_token verification_token)
          then (err (invalid_input (text "custom domain verification token is invalid")), s)
          else (
            ok verified,
            record s {
              custom_domains_by_id = insert s.custom_domains_by_id custom_domain_id verified;
            },
          )
    ]

unfoldable pub verify_custom_domain :
    Uuid → Uuid → Text → Action State OrganizationError CustomDomain
unfolding verify_custom_domain_body
verify_custom_domain organization_id custom_domain_id verification_token =
    locked store_unavailable
      (verify_custom_domain_body organization_id custom_domain_id verification_token)

abbrev pub tenant : StoredOrganization → Text → CustomDomainTenant
tenant o hostname = record {
  organization_id = o.id;
  slug = o.slug;
  name = o.name;
  plan = o.plan;
  deployment_mode = o.deployment_mode;
  primary_region = o.primary_region;
  hostname = hostname;
}

abbrev tenant_of_domain : MemoryOrganizationState → CustomDomain → Option CustomDomainTenant
tenant_of_domain s d = elim (get s.organizations_by_id d.organization_id) [
  | none ↦ none
  | some o ↦ some (tenant o d.hostname)
]

unfoldable pub resolve_custom_domain_body :
    Text → MemoryOrganizationState → Option CustomDomainTenant
resolve_custom_domain_body hostname s = elim (get s.custom_domain_id_by_hostname hostname) [
  | none ↦ none
  | some id ↦ elim (get s.custom_domains_by_id id) [
    | none ↦ none
    | some d ↦ if not (text_eqb d.status active) then none else tenant_of_domain s d
  ]
]

unfoldable pub resolve_custom_domain :
    Text → Action State OrganizationError (Option CustomDomainTenant)
unfolding resolve_custom_domain_body
resolve_custom_domain hostname =
    locked store_unavailable (λ s. (ok (resolve_custom_domain_body hostname s), s))

abbrev default_policy : Uuid → Option OrganizationWebhookPolicy → OrganizationWebhookPolicy
default_policy id none = record { organization_id = id; allow_identity_overrides = true }
default_policy id (some policy) = policy

unfoldable pub get_webhook_policy : Uuid → Action State OrganizationError OrganizationWebhookPolicy
get_webhook_policy organization_id = locked store_unavailable (λ s.
    if not (contains_key s.organizations_by_id organization_id) then (err not_found, s) else (
      ok (default_policy organization_id (get s.webhook_policies_by_organization organization_id)),
      s,
    ))

unfoldable pub upsert_webhook_policy :
    OrganizationWebhookPolicy → Action State OrganizationError OrganizationWebhookPolicy
upsert_webhook_policy policy = locked store_unavailable (λ s.
    if not (contains_key s.organizations_by_id policy.organization_id)
    then (err not_found, s)
    else (
      ok policy,
      record s {
        webhook_policies_by_organization =
            insert s.webhook_policies_by_organization policy.organization_id policy;
      },
    ))

abbrev pub memory_store : OrganizationStore
memory_store = record {
  State = State;
  create_organization = create_organization;
  list_for_user = list_for_user;
  get_for_user = get_for_user;
  active_member_user_ids = active_member_user_ids;
  update_plan = update_plan;
  add_member_if_missing = add_member_if_missing;
  set_member_status = set_member_status;
  create_custom_domain = create_custom_domain;
  list_custom_domains = list_custom_domains;
  verify_custom_domain = verify_custom_domain;
  resolve_custom_domain = resolve_custom_domain;
  get_webhook_policy = get_webhook_policy;
  upsert_webhook_policy = upsert_webhook_policy;
}
