-- ===== src/Organization/Store.antt =====
-- src/domain/organization.rs: the trait `OrganizationStore`, as operations on a state of its own.
use opencord_server.Base.{Uuid, Text, List, Option}
use opencord_server.Base.Action.{Action}
use opencord_server.Organization.{
  StoredOrganization, StoredOrganizationMember, CustomDomain, CustomDomainTenant,
  OrganizationWebhookPolicy, OrganizationMembership, OrganizationError,
}

pub record OrganizationStore : Type 1 where
  pub State : Type 0
  pub create_organization :
      StoredOrganization → StoredOrganizationMember → Action State OrganizationError (Unit {0})
  pub list_for_user : Uuid → Action State OrganizationError (List OrganizationMembership)
  pub get_for_user : Uuid → Uuid → Action State OrganizationError (Option OrganizationMembership)
  pub active_member_user_ids : Uuid → Action State OrganizationError (List Uuid)
  pub update_plan : Uuid → Text → Action State OrganizationError (Unit {0})
  pub add_member_if_missing : StoredOrganizationMember → Action State OrganizationError (Unit {0})
  pub set_member_status : Uuid → Uuid → Text → Action State OrganizationError (Unit {0})
  pub create_custom_domain : CustomDomain → Action State OrganizationError (Unit {0})
  pub list_custom_domains : Uuid → Action State OrganizationError (List CustomDomain)
  pub verify_custom_domain : Uuid → Uuid → Text → Action State OrganizationError CustomDomain
  pub resolve_custom_domain : Text → Action State OrganizationError (Option CustomDomainTenant)
  pub get_webhook_policy : Uuid → Action State OrganizationError OrganizationWebhookPolicy
  pub upsert_webhook_policy :
      OrganizationWebhookPolicy → Action State OrganizationError OrganizationWebhookPolicy
