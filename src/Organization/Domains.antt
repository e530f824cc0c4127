-- ===== src/Organization/Domains.antt =====
-- Custom domains in the in-memory store: who gets a host name, and when it leads somewhere.
use opencord_server.Base.{
  true, none, some, Text, Uuid, text, text_eqb, text_eqb_iff, nat_eq, text_eq, beq_refl, err, ◌≡◌,
  ◌≢◌, arith, ◌∙◌, sym, ap, ◌↔◌, Bool-cases, Option-cases, inl, inr,
}
use opencord_server.Base.Map.{get, insert, get-insert}
use opencord_server.Organization.{
  StoredOrganization, CustomDomain, CustomDomainTenant, invalid_input, custom_domain_already_exists,
}
use opencord_server.Organization.Memory.{MemoryOrganizationState, active}
use opencord_server.Organization.Domain.{
  create_custom_domain_body, verify_custom_domain_body, resolve_custom_domain_body, tenant,
}
use opencord_server.Organization.Index.{IsIndexed}

-- What stands behind a host name that leads to a tenant.
pub record LeadsTo (h : Text) (s : MemoryOrganizationState) (t : CustomDomainTenant) : Type 0 where
  pub id : Uuid
  pub domain : CustomDomain
  pub organization : StoredOrganization
  pub stored : get s.custom_domains_by_id id ≡ some domain
  pub has_name : domain.hostname ≡ h
  pub is_verified : domain.status ≡ active
  pub belongs : get s.organizations_by_id domain.organization_id ≡ some organization
  pub is_tenant : t ≡ tenant organization h

module _ (h : Text) (s : MemoryOrganizationState) (t : CustomDomainTenant) (inv : IsIndexed s) where
  resolve-LeadsTo : resolve_custom_domain_body h s ≡ some t → LeadsTo h s t
  unfolding resolve_custom_domain_body
  resolve-LeadsTo e = elim (Option-cases (get s.custom_domain_id_by_hostname h)) [
    | inl free ↦ cc (rw (free, resolve_custom_domain_body) at e)
    | inr (i, found) ↦
        let (d, stored, name) = inv.named h i found in
        elim (Bool-cases (text_eqb d.status active)) [
          | inr off ↦ cc (rw (found, resolve_custom_domain_body, stored, off) at e)
          | inl on ↦
              let e' = rw (found, resolve_custom_domain_body, stored, on) at e in
              elim (Option-cases (get s.organizations_by_id d.organization_id)) [
                | inl none_there ↦ absurd (ground (arith, e', none_there))
                | inr (o, there) ↦ record {
                  id = i;
                  domain = d;
                  organization = o;
                  stored = stored;
                  has_name = name;
                  is_verified = (text_eqb_iff d.status active).0 on;
                  belongs = there;
                  is_tenant = ground (arith, e', there, name);
                }
              ]
        ]
  ]

  LeadsTo-resolve : LeadsTo h s t → resolve_custom_domain_body h s ≡ some t
  unfolding resolve_custom_domain_body
  LeadsTo-resolve l =
      let found : get s.custom_domain_id_by_hostname h ≡ some l.id =
        ap (get s.custom_domain_id_by_hostname) (sym (l.has_name))
        ∙ inv.indexed l.id l.domain l.stored in
      let on : text_eqb l.domain.status active ≡ true =
        (text_eqb_iff l.domain.status active).1 (l.is_verified) in
      let e : some (tenant l.organization l.domain.hostname) ≡ some t =
        ap (λ x. some (tenant l.organization x)) (l.has_name) ∙ ap some (sym (l.is_tenant)) in
      rw (found, resolve_custom_domain_body, l.stored, on) (ground (arith, l.belongs, e))

-- In a store whose tables agree, a host name leads to a tenant exactly when a domain of that
-- host name is stored that was verified and whose organization exists; the tenant is that
-- organization, under that host name.
pub resolve_custom_domain_iff :
    (h : Text) (s : MemoryOrganizationState) (t : CustomDomainTenant)
    → IsIndexed s
    → (resolve_custom_domain_body h s ≡ some t) ↔ LeadsTo h s t
resolve_custom_domain_iff h s t inv = (resolve-LeadsTo h s t inv, LeadsTo-resolve h s t inv)

-- The life of a host name, in a store in which the domain's organization exists and the host name
-- is not taken: a domain that is created as not active leads nowhere; a wrong token is refused and
-- changes nothing; the right token makes the host name lead to the organization; and from the
-- start another domain of that host name is refused, whichever organization that exists it is for.
pub custom_domain_lifecycle :
    (d other : CustomDomain) (o o' : StoredOrganization) (token : Text)
    (s : MemoryOrganizationState)
    → get s.organizations_by_id d.organization_id ≡ some o
    → get s.organizations_by_id other.organization_id ≡ some o'
    → get s.custom_domain_id_by_hostname d.hostname ≡ none
    → d.status ≢ active
    → token ≢ d.verification_token
    → other.hostname ≡ d.hostname
    → let s1 = (create_custom_domain_body d s).1 in
      (resolve_custom_domain_body d.hostname s1 ≡ none)
      × (verify_custom_domain_body d.organization_id d.id token s1
          ≡ (err (invalid_input (text "custom domain verification token is invalid")), s1))
      × (resolve_custom_domain_body d.hostname
            (verify_custom_domain_body d.organization_id d.id d.verification_token s1).1
          ≡ some (tenant o d.hostname))
      × (create_custom_domain_body other s1 ≡ (err custom_domain_already_exists, s1))
unfolding create_custom_domain_body verify_custom_domain_body resolve_custom_domain_body
custom_domain_lifecycle d other o o' token s org org' free pending wrong same = ground (
  arith,
  org,
  org',
  free,
  pending,
  wrong,
  same,
  get-insert s.custom_domain_id_by_hostname d.hostname d.hostname d.id,
  get-insert s.custom_domain_id_by_hostname d.hostname other.hostname d.id,
  get-insert s.custom_domains_by_id d.id d.id d,
  get-insert (insert s.custom_domains_by_id d.id d) d.id d.id (record d { status = active }),
  text_eqb_iff d.status active,
  text_eqb_iff active active,
  text_eqb_iff d.verification_token token,
  text_eqb_iff d.verification_token d.verification_token,
  text_eqb_iff d.hostname d.hostname,
  text_eqb_iff d.hostname other.hostname,
  beq_refl d.id,
  beq_refl d.organization_id,
)
