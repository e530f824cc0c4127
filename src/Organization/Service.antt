-- ===== src/Organization/Service.antt =====
-- src/domain/organization.rs: `OrganizationService`, over any store. Fresh ids are arguments, and the
-- plain hexadecimal form of a UUID is one too.
use opencord_server.Base.{
  ◌||◌, Bool, if◌then◌else◌, List, ◌++◌, Text, Uuid, text, text_eqb, trim, is_empty, ok_or,
}
use opencord_server.Base.Action.{Action, ◌>>=◌, ◌>>◌, lift, pure, fail}
use opencord_server.Organization.{
  StoredOrganization, StoredOrganizationMember, CustomDomain, CustomDomainTenant,
  OrganizationWebhookPolicy, OrganizationMembership, TenantProvision, OrganizationError,
  invalid_input, not_found, forbidden,
}
use opencord_server.Organization.Input.{
  normalize_name, slugify, normalize_member_role, normalize_member_status, normalize_plan,
  normalize_deployment_mode, normalize_region,
}
use opencord_server.Organization.Hostname.{normalize_hostname, normalize_host_header}
use opencord_server.Organization.Store.{OrganizationStore}

module _ (store : OrganizationStore) where
  open store use {State}

  unfoldable pub create_with_options :
      Uuid
      → Uuid
      → Text
      → Text
      → Text
      → Text
      → Action State OrganizationError OrganizationMembership
  create_with_options id owner_id raw plan deployment_mode primary_region = do
    name ← lift (normalize_name raw)
    slug ← lift (slugify name)
    let o : StoredOrganization = record {
      id = id;
      slug = slug;
      name = name;
      plan = plan;
      deployment_mode = deployment_mode;
      primary_region = primary_region;
    }
    let owner_member : StoredOrganizationMember = record {
      organization_id = id;
      user_id = owner_id;
      role = text "owner";
      status = text "active";
    }
    store.create_organization o owner_member
    pure (record {
      id = id;
      slug = slug;
      name = name;
      role = text "owner";
      plan = plan;
      deployment_mode = deployment_mode;
      primary_region = primary_region;
    })

  unfoldable pub create : Uuid → Uuid → Text → Action State OrganizationError OrganizationMembership
  unfolding create_with_options
  create id owner_id name =
      create_with_options id owner_id name (text "free") (text "self_hosted") (text "local")

  unfoldable pub provision_tenant :
      Uuid → Uuid → Text → Text → Text → Text → Action State OrganizationError TenantProvision
  unfolding create_with_options
  provision_tenant id owner_id name raw_plan raw_mode raw_region = do
    plan ← lift (normalize_plan raw_plan)
    deployment_mode ← lift (normalize_deployment_mode raw_mode)
    primary_region ← lift (normalize_region raw_region)
    organization ← create_with_options id owner_id name plan deployment_mode primary_region
    pure (record { organization = organization; owner_user_id = owner_id })

  unfoldable pub list_for_user : Uuid → Action State OrganizationError (List OrganizationMembership)
  list_for_user user_id = store.list_for_user user_id

  unfoldable pub get_for_user : Uuid → Uuid → Action State OrganizationError OrganizationMembership
  get_for_user user_id organization_id = do
    found ← store.get_for_user user_id organization_id
    lift (ok_or not_found found)

  unfoldable pub require_admin : Uuid → Uuid → Action State OrganizationError OrganizationMembership
  unfolding get_for_user
  require_admin user_id organization_id = do
    membership ← get_for_user user_id organization_id
    if text_eqb membership.role (text "owner") || text_eqb membership.role (text "admin")
        then pure membership
        else fail forbidden

  unfoldable pub add_member_if_missing :
      Uuid → Uuid → Text → Action State OrganizationError (Unit {0})
  add_member_if_missing organization_id user_id raw = do
    role ← lift (normalize_member_role raw)
    store.add_member_if_missing (record {
      organization_id = organization_id;
      user_id = user_id;
      role = role;
      status = text "active";
    })

  unfoldable pub set_member_status : Uuid → Uuid → Text → Action State OrganizationError (Unit {0})
  set_member_status organization_id user_id raw = do
    status ← lift (normalize_member_status raw)
    store.set_member_status organization_id user_id status

  -- `token` is `ids::new_uuid_v7().simple()`.
  unfoldable pub create_custom_domain :
      Uuid → Text → Uuid → Uuid → Text → Action State OrganizationError CustomDomain
  unfolding get_for_user
  create_custom_domain id token user_id organization_id raw = do
    _ ← get_for_user user_id organization_id
    hostname ← lift (normalize_hostname raw)
    let d : CustomDomain = record {
      id = id;
      organization_id = organization_id;
      hostname = hostname;
      verification_token = text "opc-domain-" ++ token;
      status = text "pending_verification";
    }
    store.create_custom_domain d
    pure d

  unfoldable pub list_custom_domains :
      Uuid → Uuid → Action State OrganizationError (List CustomDomain)
  unfolding get_for_user
  list_custom_domains user_id organization_id = do
    _ ← get_for_user user_id organization_id
    store.list_custom_domains organization_id

  unfoldable pub verify_custom_domain :
      Uuid → Uuid → Uuid → Text → Action State OrganizationError CustomDomain
  unfolding get_for_user
  verify_custom_domain user_id organization_id custom_domain_id raw = do
    _ ← get_for_user user_id organization_id
    if is_empty (trim raw)
        then fail (invalid_input (text "custom domain verification_token is required"))
        else store.verify_custom_domain organization_id custom_domain_id (trim raw)

  unfoldable pub resolve_custom_domain : Text → Action State OrganizationError CustomDomainTenant
  resolve_custom_domain header = do
    hostname ← lift (normalize_host_header header)
    found ← store.resolve_custom_domain hostname
    lift (ok_or not_found found)

  unfoldable pub webhook_policy_for_organization :
      Uuid → Action State OrganizationError OrganizationWebhookPolicy
  webhook_policy_for_organization organization_id = store.get_webhook_policy organization_id

  unfoldable pub webhook_policy :
      Uuid → Uuid → Action State OrganizationError OrganizationWebhookPolicy
  unfolding require_admin webhook_policy_for_organization
  webhook_policy user_id organization_id = do
    _ ← require_admin user_id organization_id
    webhook_policy_for_organization organization_id

  unfoldable pub upsert_webhook_policy :
      Uuid → Uuid → Bool → Action State OrganizationError OrganizationWebhookPolicy
  unfolding require_admin
  upsert_webhook_policy user_id organization_id allow_identity_overrides = do
    _ ← require_admin user_id organization_id
    store.upsert_webhook_policy (record {
      organization_id = organization_id;
      allow_identity_overrides = allow_identity_overrides;
    })
