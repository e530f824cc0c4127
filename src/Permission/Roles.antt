-- ===== src/Permission/Roles.antt =====
-- The in-memory permission store keeps its two role tables in step: names are unique in a space.
use opencord_server.Base.{
  none, some, Text, Uuid, err, nat_eq, text_eq, pair_eq, pair_eqb, pair_eqb_iff, ◌≡◌, arith, ◌∙◌,
  sym, ap, ◌↔◌, inl, inr, Bool-cases, Option-cases,
}
use opencord_server.Base.Action.{healthy}
use opencord_server.Base.Map.{get, insert, contains_key, get-insert}
use opencord_server.Permission.{Role, role_already_exists}
use opencord_server.Permission.Memory.{MemoryPermissionState, name_key, create_role, empty_state}

pub record IsConsistent (s : MemoryPermissionState) : Type 0 where
  -- An entry of the name table leads to a role of that name.
  pub named :
      (k : Uuid × Text) (id : Uuid)
      → get s.role_id_by_space_name k ≡ some id
      → (role : Role) × (get s.roles_by_id id ≡ some role) × (name_key role ≡ k)
  -- A role is found under its name.
  pub indexed :
      (id : Uuid) (role : Role)
      → get s.roles_by_id id ≡ some role
      → get s.role_id_by_space_name (name_key role) ≡ some id

pub empty_state-IsConsistent : IsConsistent empty_state
unfolding get
empty_state-IsConsistent = record { named = λ k id h. cc; indexed = λ id role h. cc }

module _ (role : Role) (s : MemoryPermissionState) (inv : IsConsistent s) where
  abbrev after : MemoryPermissionState
  after = record s {
    role_id_by_space_name = insert s.role_id_by_space_name (name_key role) role.id;
    roles_by_id = insert s.roles_by_id role.id role;
  }

  after-named :
      get s.roles_by_id role.id ≡ none
      → (k : Uuid × Text) (id : Uuid) → get after.role_id_by_space_name k ≡ some id
      → (r : Role) × (get after.roles_by_id id ≡ some r) × (name_key r ≡ k)
  after-named fresh k id h = elim (Bool-cases (pair_eqb (name_key role) k)) [
    | inl same ↦ (
      role,
      ground (
        arith,
        get-insert s.role_id_by_space_name (name_key role) k role.id,
        same,
        get-insert s.roles_by_id role.id id role,
      ),
      (pair_eqb_iff (name_key role) k).0 same,
    )
    | inr other ↦
        let old : get s.role_id_by_space_name k ≡ some id =
          ground (arith, get-insert s.role_id_by_space_name (name_key role) k role.id, other) in
        let (r, stored, name) = inv.named k id old in
        (r, ground (arith, get-insert s.roles_by_id role.id id role, stored, fresh), name)
  ]

  after-indexed :
      get s.role_id_by_space_name (name_key role) ≡ none
      → (id : Uuid) (r : Role) → get after.roles_by_id id ≡ some r
      → get after.role_id_by_space_name (name_key r) ≡ some id
  after-indexed free id r h = ground (
    arith,
    get-insert s.roles_by_id role.id id role,
    get-insert s.role_id_by_space_name (name_key role) (name_key r) role.id,
    inv.indexed id r,
    pair_eqb_iff (name_key role) (name_key r),
  )

-- Creating a role under a fresh id keeps the two tables of roles consistent, whether it succeeds or
-- finds the name taken.
pub create_role-IsConsistent :
    (role : Role) (s : MemoryPermissionState)
    → IsConsistent s
    → get s.roles_by_id role.id ≡ none
    → IsConsistent (create_role role (healthy s)).1.guarded
unfolding create_role
create_role-IsConsistent role s inv fresh =
    elim (Bool-cases (contains_key s.role_id_by_space_name (name_key role))) [
      | inl taken ↦ rw taken inv
      | inr free ↦ rw free (record {
        named = after-named role s inv fresh;
        indexed = after-indexed role s inv (ground arith);
      })
    ]

-- Between two roles of a consistent store, the same space and the same name up to ASCII case mean
-- the same role.
pub role_name_unique :
    (s : MemoryPermissionState) (i j : Uuid) (a b : Role)
    → IsConsistent s
    → get s.roles_by_id i ≡ some a
    → get s.roles_by_id j ≡ some b
    → name_key a ≡ name_key b
    → i ≡ j
role_name_unique s i j a b inv ha hb e = ground (arith, inv.indexed i a ha, inv.indexed j b hb, e)

-- Creating a role is refused exactly when the space of a consistent store has a role of that name
-- up to ASCII case; the refusal leaves the store as it was.
pub create_role-refused_iff :
    (role : Role) (s : MemoryPermissionState)
    → IsConsistent s
    → (create_role role (healthy s) ≡ (err role_already_exists, healthy s))
      ↔ ((id : Uuid) × (r : Role) × (get s.roles_by_id id ≡ some r) × (name_key r ≡ name_key role))
unfolding create_role
create_role-refused_iff role s inv = (taken, clash)
  where
    taken :
        create_role role (healthy s) ≡ (err role_already_exists, healthy s)
        → (id : Uuid) × (r : Role) × (get s.roles_by_id id ≡ some r) × (name_key r ≡ name_key role)
    taken h = elim (Option-cases (get s.role_id_by_space_name (name_key role))) [
      | inl free ↦ absurd (ground (arith, free))
      | inr (id, e) ↦
          let (r, stored, name) = inv.named (name_key role) id e in (id, r, stored, name)
    ]

    clash :
        (id : Uuid) × (r : Role) × (get s.roles_by_id id ≡ some r) × (name_key r ≡ name_key role)
        → create_role role (healthy s) ≡ (err role_already_exists, healthy s)
    clash (id, r, stored, name) =
        let e : get s.role_id_by_space_name (name_key role) ≡ some id =
          ap (get s.role_id_by_space_name) (sym name) ∙ inv.indexed id r stored in
        rw e
