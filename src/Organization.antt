-- ===== src/Organization.antt =====
-- src/domain/organization.rs: organizations, their members, custom domains and webhook policies.
-- Children: the checks on input, host names, the store and its in-memory implementation, the service,
-- and what holds of them.
pub mod Input
pub mod Hostname
pub mod Store
pub mod Memory
pub mod Domain
pub mod Service
pub mod Index
pub mod Domains
pub mod Members
mod Tests
use opencord_server.Base.{ℕ, Bool, Option, Text, Uuid, text}

pub record StoredOrganization : Type 0 where
  pub id : Uuid
  pub slug : Text
  pub name : Text
  pub plan : Text
  pub deployment_mode : Text
  pub primary_region : Text

pub record StoredOrganizationMember : Type 0 where
  pub organization_id : Uuid
  pub user_id : Uuid
  pub role : Text
  pub status : Text

-- `StoredCustomDomain` and `CustomDomain`, which have the same fields; `CustomDomain::from` copies
-- them.
pub record CustomDomain : Type 0 where
  pub id : Uuid
  pub organization_id : Uuid
  pub hostname : Text
  pub verification_token : Text
  pub status : Text

pub record CustomDomainTenant : Type 0 where
  pub organization_id : Uuid
  pub slug : Text
  pub name : Text
  pub plan : Text
  pub deployment_mode : Text
  pub primary_region : Text
  pub hostname : Text

pub record OrganizationWebhookPolicy : Type 0 where
  pub organization_id : Uuid
  pub allow_identity_overrides : Bool

pub record OrganizationMembership : Type 0 where
  pub id : Uuid
  pub slug : Text
  pub name : Text
  pub role : Text
  pub plan : Text
  pub deployment_mode : Text
  pub primary_region : Text

pub record TenantProvision : Type 0 where
  pub organization : OrganizationMembership
  pub owner_user_id : Uuid

pub data OrganizationError : Type 0 where
  invalid_input : Text → OrganizationError
  slug_already_exists custom_domain_already_exists forbidden : OrganizationError
  not_found store_unavailable : OrganizationError

unfoldable pub status_code : OrganizationError → ℕ
status_code (invalid_input _) = 400
status_code slug_already_exists = 409
status_code custom_domain_already_exists = 409
status_code forbidden = 403
status_code not_found = 404
status_code store_unavailable = 500

unfoldable pub error_code : OrganizationError → Text
error_code (invalid_input _) = text "invalid_request"
error_code slug_already_exists = text "organization_slug_already_exists"
error_code custom_domain_already_exists = text "custom_domain_already_exists"
error_code forbidden = text "forbidden"
error_code not_found = text "organization_not_found"
error_code store_unavailable = text "store_unavailable"
