-- ===== src/Organization/Tests.antt =====
-- Tests of the organizations, and their theorems at concrete inputs.
use opencord_server.Base.{
  false, [], ◌∷◌, none, some, Text, text, text_eqb, text_eqb_iff, ◌≢◌, text_eq, nat_eq, pair_eq, ok,
  err, ◌≡◌, ◌↔◌, refl, arith, trim, len, collapse, is_ascii_alphanumeric, is_ascii_digit,
  is_whitespace, ascii_lower,
}
use opencord_server.Base.Map.{get}
use opencord_server.Base.Action.{healthy}
use opencord_server.Organization.{
  StoredOrganization, StoredOrganizationMember, OrganizationMembership, CustomDomain, invalid_input,
  custom_domain_already_exists,
}
use opencord_server.Organization.Hostname.{normalize_host_header, ends_with}
use opencord_server.Organization.Memory.{
  MemoryOrganizationState, active, membership, create_organization, create_organization_body,
}
use opencord_server.Organization.Domain.{
  create_custom_domain_body, verify_custom_domain_body, resolve_custom_domain_body, tenant,
  memory_store,
}
use opencord_server.Organization.Service.{require_admin, create_with_options}
use opencord_server.Organization.Index.{IsIndexed}
use opencord_server.Organization.Domains.{
  LeadsTo, resolve_custom_domain_iff, custom_domain_lifecycle,
}
use opencord_server.Organization.Members.{require_admin-create_with_options}
use opencord_server.Organization.Input.{normalize_name, slugify}
use opencord_server.Space.Slug

-- A port is cut off, and a name of one label is refused.
host_headers :
    (normalize_host_header (text "Chat.Example.com:8080") ≡ ok (text "chat.example.com"))
    × (normalize_host_header (text "localhost")
        ≡ err (
            invalid_input (text "custom domain hostname must be a valid fully qualified hostname")))
unfolding normalize_host_header trim is_whitespace len is_ascii_digit ascii_lower ends_with
    is_ascii_alphanumeric
host_headers = (refl, refl)

abbrev acme : StoredOrganization
acme = record {
  id = 1;
  slug = text "acme";
  name = text "Acme";
  plan = text "free";
  deployment_mode = text "cloud";
  primary_region = text "eu";
}

abbrev boss : StoredOrganizationMember
boss = record { organization_id = 1; user_id = 9; role = text "owner"; status = active }

abbrev sample : MemoryOrganizationState
sample = record {
  organizations_by_id = (1, acme) ∷ [];
  organization_id_by_slug = (text "acme", 1) ∷ [];
  members_by_org_user = ((1, 9), boss) ∷ [];
  custom_domains_by_id = [];
  custom_domain_id_by_hostname = [];
  webhook_policies_by_organization = [];
}

abbrev domain : CustomDomain
domain = record {
  id = 4;
  organization_id = 1;
  hostname = text "a.b";
  verification_token = text "t";
  status = text "pending_verification";
}

sample-IsIndexed : IsIndexed sample
unfolding get
sample-IsIndexed = record {
  own_id = λ i d h. cc;
  indexed = λ i d h. cc;
  named = λ h i e. absurd (ground (arith, e));
}

abbrev verified : MemoryOrganizationState
verified = record sample {
  custom_domains_by_id = (4, record domain { status = active }) ∷ [];
  custom_domain_id_by_hostname = (text "a.b", 4) ∷ [];
}

verified-IsIndexed : IsIndexed verified
unfolding get
verified-IsIndexed = record {
  own_id = λ i d h. ground (arith, h);
  indexed = λ i d h. ground (arith, h, text_eqb_iff (text "a.b") d.hostname);
  named = λ h i e. (
    record domain { status = active },
    ground (arith, e),
    ground (arith, e, text_eqb_iff (text "a.b") h),
  );
}

resolve_custom_domain_iff_example :
    (resolve_custom_domain_body (text "a.b") verified ≡ some (tenant acme (text "a.b")))
    ↔ LeadsTo (text "a.b") verified (tenant acme (text "a.b"))
resolve_custom_domain_iff_example =
    resolve_custom_domain_iff (text "a.b") verified (tenant acme (text "a.b")) verified-IsIndexed

differ : {s t : Text} → text_eqb s t ≡ false → s ≢ t
differ {s} {t} h e = ground (arith, h, e, text_eqb_iff s t)

abbrev rival : StoredOrganization
rival = record acme { id = 2; slug = text "rival" }

abbrev with_rival : MemoryOrganizationState
with_rival = record sample { organizations_by_id = (1, acme) ∷ (2, rival) ∷ [] }

custom_domain_lifecycle_example :
    let s1 = (create_custom_domain_body domain with_rival).1 in
    (resolve_custom_domain_body (text "a.b") s1 ≡ none)
    × (verify_custom_domain_body 1 4 (text "x") s1
        ≡ (err (invalid_input (text "custom domain verification token is invalid")), s1))
    × (resolve_custom_domain_body (text "a.b") (verify_custom_domain_body 1 4 (text "t") s1).1
        ≡ some (tenant acme (text "a.b")))
    × (create_custom_domain_body (record domain { id = 5; organization_id = 2 }) s1
        ≡ (err custom_domain_already_exists, s1))
unfolding get text_eqb
custom_domain_lifecycle_example =
    custom_domain_lifecycle domain (record domain { id = 5; organization_id = 2 }) acme rival
      (text "x") with_rival refl refl refl (differ refl) (differ refl) refl

abbrev founded : OrganizationMembership
founded = membership (record acme { id = 3; slug = text "abc"; name = text "Abc" }) (text "owner")

require_admin-create_with_options_example :
    let s' =
      (create_with_options memory_store 3 8
        (text "Abc")
        (text "free")
        (text "cloud")
        (text "eu")
        (healthy sample)).1 in
    (require_admin memory_store 8 3 s').0 ≡ ok founded
unfolding create_with_options create_organization create_organization_body normalize_name slugify
    collapse get len is_ascii_alphanumeric Slug.pop_dashes Slug.push_chars Slug.lower_chars
    Slug.push_char text_eqb
require_admin-create_with_options_example =
    require_admin-create_with_options 3 8 (text "Abc") (text "free") (text "cloud") (text "eu")
      sample
      (create_with_options memory_store 3 8 (text "Abc") (text "free") (text "cloud") (text "eu")
        (healthy sample)).1.guarded
      founded 8 3 refl refl
