-- ===== src/Organization/Index.antt =====
-- src/repositories/organization_memory.rs: the two tables of custom domains, one by id and one by
-- host name.
use opencord_server.Base.{
  nat_eqb, none, some, Text, Uuid, text_eqb, text_eqb_iff, nat_eq, text_eq, ◌≡◌, arith, Bool-cases,
  Option-cases, inl, inr,
}
use opencord_server.Base.Map.{get, insert, contains_key, get-insert}
use opencord_server.Organization.{CustomDomain}
use opencord_server.Organization.Memory.{MemoryOrganizationState, active}
use opencord_server.Organization.Domain.{create_custom_domain_body, verify_custom_domain_body}

-- The two tables of custom domains agree.
pub record IsIndexed (s : MemoryOrganizationState) : Type 0 where
  pub own_id : (i : Uuid) (d : CustomDomain) → get s.custom_domains_by_id i ≡ some d → d.id ≡ i
  pub indexed :
      (i : Uuid) (d : CustomDomain)
      → get s.custom_domains_by_id i ≡ some d
      → get s.custom_domain_id_by_hostname d.hostname ≡ some i
  pub named :
      (h : Text) (i : Uuid)
      → get s.custom_domain_id_by_hostname h ≡ some i
      → (d : CustomDomain) × (get s.custom_domains_by_id i ≡ some d) × (d.hostname ≡ h)

-- A domain that was just created, in a store in which its id is new.
module _ (d : CustomDomain) (s : MemoryOrganizationState)
    (fresh : get s.custom_domains_by_id d.id ≡ none)
    (free : get s.custom_domain_id_by_hostname d.hostname ≡ none) where
  abbrev with_domain : MemoryOrganizationState
  with_domain = record s {
    custom_domain_id_by_hostname = insert s.custom_domain_id_by_hostname d.hostname d.id;
    custom_domains_by_id = insert s.custom_domains_by_id d.id d;
  }

  with_domain-IsIndexed : IsIndexed s → IsIndexed with_domain
  with_domain-IsIndexed inv = record {
    own_id = λ i x h. ground (arith, get-insert s.custom_domains_by_id d.id i d, inv.own_id i x);
    indexed = λ i x h. ground (
      arith,
      get-insert s.custom_domains_by_id d.id i d,
      get-insert s.custom_domain_id_by_hostname d.hostname x.hostname d.id,
      inv.indexed i x,
      text_eqb_iff d.hostname x.hostname,
    );
    named = λ h i e. elim (Bool-cases (text_eqb d.hostname h)) [
      | inl same ↦ (
        d,
        ground (
          arith,
          get-insert s.custom_domain_id_by_hostname d.hostname h d.id,
          same,
          get-insert s.custom_domains_by_id d.id i d,
        ),
        (text_eqb_iff d.hostname h).0 same,
      )
      | inr other ↦
          let (x, stored, name) =
            inv.named h i (
              ground (arith, get-insert s.custom_domain_id_by_hostname d.hostname h d.id, other)) in
          (x, ground (arith, get-insert s.custom_domains_by_id d.id i d, stored, fresh), name)
    ];
  }

-- Creating a custom domain under a new id keeps the two tables of domains in step, whether it
-- succeeds or is refused.
pub create_custom_domain-IsIndexed :
    (d : CustomDomain) (s : MemoryOrganizationState)
    → IsIndexed s
    → get s.custom_domains_by_id d.id ≡ none
    → IsIndexed (create_custom_domain_body d s).1
unfolding create_custom_domain_body
create_custom_domain-IsIndexed d s inv fresh =
    elim (Bool-cases (contains_key s.organizations_by_id d.organization_id)) [
      | inr missing ↦ rw missing inv
      | inl there ↦ elim (Option-cases (get s.custom_domain_id_by_hostname d.hostname)) [
        | inr (i, taken) ↦ rw (there, taken) inv
        | inl free ↦ rw (there, free) (with_domain-IsIndexed d s fresh free inv)
      ]
    ]

verified-IsIndexed :
    (id : Uuid) (d : CustomDomain) (s : MemoryOrganizationState)
    → get s.custom_domains_by_id id ≡ some d
    → IsIndexed s
    → IsIndexed (record s {
      custom_domains_by_id = insert s.custom_domains_by_id id (record d { status = active });
    })
verified-IsIndexed id d s found inv = record {
  own_id = λ i x h. ground (
    arith,
    get-insert s.custom_domains_by_id id i (record d { status = active }),
    inv.own_id i x,
    inv.own_id id d found,
  );
  indexed = λ i x h. ground (
    arith,
    get-insert s.custom_domains_by_id id i (record d { status = active }),
    inv.indexed i x,
    inv.indexed id d found,
  );
  named = λ h i e.
      let (x, stored, name) = inv.named h i e in
      elim (Bool-cases (nat_eqb id i)) [
        | inl same ↦ (
          record d { status = active },
          ground
              (arith, get-insert s.custom_domains_by_id id i (record d { status = active }), same),
          ground (arith, same, stored, found, name),
        )
        | inr other ↦ (
          x,
          ground (
            arith,
            get-insert s.custom_domains_by_id id i (record d { status = active }),
            other,
            stored,
          ),
          name,
        )
      ];
}

-- Verifying a custom domain keeps the two tables of domains in step.
pub verify_custom_domain-IsIndexed :
    (organization_id id : Uuid) (token : Text) (s : MemoryOrganizationState)
    → IsIndexed s
    → IsIndexed (verify_custom_domain_body organization_id id token s).1
unfolding verify_custom_domain_body
verify_custom_domain-IsIndexed organization_id id token s inv =
    elim (Option-cases (get s.custom_domains_by_id id)) [
      | inl missing ↦ rw (missing, verify_custom_domain_body) inv
      | inr (d, found) ↦ elim (Bool-cases (nat_eqb d.organization_id organization_id)) [
        | inr other ↦ rw (found, verify_custom_domain_body, other) inv
        | inl own ↦ elim (Bool-cases (text_eqb d.verification_token token)) [
          | inr wrong ↦ rw (found, verify_custom_domain_body, own, wrong) inv
          | inl right ↦
              rw (found, verify_custom_domain_body, own, right)
                (verified-IsIndexed id d s found inv)
        ]
      ]
    ]
