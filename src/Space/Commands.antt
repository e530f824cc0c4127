-- ===== src/Space/Commands.antt =====
-- src/domain/space.rs over src/repositories/space_memory.rs: any sequence of calls of the service on
-- the in-memory store, and how a property is shown to outlive every such sequence.
use opencord_server.Base.{
  false, List, [], ◌∷◌, some, Text, Uuid, text_eqb, ◌≡◌, refl, sym, Bool-cases, Option-cases, inl,
  inr,
}
use mathlib.Core.Path.{subst}
use opencord_server.Base.Fallible.{Result-cases}
use opencord_server.Base.Action.{
  Action, Mutex, healthy, next, pure, locked, state-pure, state-locked,
}
use opencord_server.Space.{
  StoredSpace, StoredSpaceMember, SpaceMembership, SpacePatch, SpaceError, store_unavailable,
  normalize_name, normalize_member_role,
}
use opencord_server.Space.Slug.{slugify}
use opencord_server.Space.Memory
use opencord_server.Space.Memory.{
  MemorySpaceState, memory_store, create_space_body, add_member_body, remove_member_body,
  update_space_body, archive_space_body, get_for_user_body, owner, active, membership,
}
use opencord_server.Space.Service
use opencord_server.Space.Service.{patched}

pub data Command : Type 0 where
  create : Uuid → Uuid → Uuid → Text → Command
  add_member : Uuid → Uuid → Text → Command
  remove_member : Uuid → Uuid → Command
  update : SpaceMembership → SpacePatch → Command
  delete : SpaceMembership → Command

unfoldable pub run : Command → MemorySpaceState → MemorySpaceState
run (create id owner_id organization_id name) s =
    (Service.create memory_store id owner_id organization_id name (healthy s)).1.guarded
run (add_member space_id user_id role) s =
    (Service.add_member memory_store space_id user_id role (healthy s)).1.guarded
run (remove_member space_id user_id) s =
    (Service.remove_member memory_store space_id user_id (healthy s)).1.guarded
run (update existing patch) s = (Service.update memory_store existing patch (healthy s)).1.guarded
run (delete existing) s = (Service.delete memory_store existing (healthy s)).1.guarded

unfoldable pub run_all : List Command → MemorySpaceState → MemorySpaceState
run_all [] s = s
run_all (c ∷ cs) s = run_all cs (run c s)

-- What each operation of the store has to keep true, under what the service checked before it.
pub record Keeps (P : MemorySpaceState → Type 0) : Type 0 where
  pub by_create :
      (space : StoredSpace) (m : StoredSpaceMember) (s : MemorySpaceState)
      → m.role ≡ owner
      → m.status ≡ active
      → P s
      → P (create_space_body space m s).1
  pub by_add_member :
      (m : StoredSpaceMember) (s : MemorySpaceState)
      → m.status ≡ active
      → P s
      → P (add_member_body m s).1
  pub by_remove_member :
      (space_id user_id : Uuid) (m : SpaceMembership) (s : MemorySpaceState)
      → get_for_user_body user_id space_id s ≡ some m
      → text_eqb m.role owner ≡ false
      → P s
      → P (remove_member_body space_id user_id s).1
  pub by_update : (m : SpaceMembership) (s : MemorySpaceState) → P s → P (update_space_body m s).1
  pub by_archive :
      (space_id organization_id : Uuid) (s : MemorySpaceState)
      → P s
      → P (archive_space_body space_id organization_id s).1

module _ (P : MemorySpaceState → Type 0) (keeps : Keeps P) where
  -- The state after an operation of the store whose result is then replaced.
  replaced :
      (body : Action MemorySpaceState SpaceError (Unit {0})) (m : SpaceMembership)
      (s : MemorySpaceState)
      → P (body s).1
      → P (next (λ _. pure m) (locked store_unavailable body (healthy s))).1.guarded
  replaced body m s h =
      subst (λ (t : Mutex MemorySpaceState). P t.guarded)
        (sym (state-pure (locked store_unavailable body) (λ _. m) (healthy s)))
        (subst P (sym (state-locked store_unavailable body s)) h)

  returned :
      (body : Action MemorySpaceState SpaceError SpaceMembership) (s : MemorySpaceState)
      → P (body s).1
      → P (locked store_unavailable body (healthy s)).1.guarded
  returned body s h = subst P (sym (state-locked store_unavailable body s)) h

  create-keeps :
      (id owner_id organization_id : Uuid) (raw : Text) (s : MemorySpaceState)
      → P s
      → P (Service.create memory_store id owner_id organization_id raw (healthy s)).1.guarded
  unfolding Service.create Memory.create_space
  create-keeps id owner_id organization_id raw s h = elim (Result-cases (normalize_name raw)) [
    | inl (e, bad) ↦ rw bad h
    | inr (name, good) ↦ elim (Result-cases (slugify name)) [
      | inl (e, bad) ↦ rw (good, bad) h
      | inr (slug, good') ↦
          let space : StoredSpace = record {
            id = id;
            organization_id = organization_id;
            slug = slug;
            name = name;
            owner_user_id = owner_id;
          } in
          let m : StoredSpaceMember = record {
            space_id = id;
            user_id = owner_id;
            role = owner;
            status = active;
          } in
          rw (good, good')
            (replaced (create_space_body space m) (membership space owner) s
              (keeps.by_create space m s refl refl h))
    ]
  ]

  add_member-keeps :
      (space_id user_id : Uuid) (raw : Text) (s : MemorySpaceState)
      → P s
      → P (Service.add_member memory_store space_id user_id raw (healthy s)).1.guarded
  unfolding Service.add_member Memory.add_member
  add_member-keeps space_id user_id raw s h = elim (Result-cases (normalize_member_role raw)) [
    | inl (e, bad) ↦ rw bad h
    | inr (role, good) ↦
        let m : StoredSpaceMember = record {
          space_id = space_id;
          user_id = user_id;
          role = role;
          status = active;
        } in
        rw good (returned (add_member_body m) s (keeps.by_add_member m s refl h))
  ]

  remove_member-keeps :
      (space_id user_id : Uuid) (s : MemorySpaceState)
      → P s
      → P (Service.remove_member memory_store space_id user_id (healthy s)).1.guarded
  unfolding Service.remove_member Memory.get_for_user Memory.remove_member
  remove_member-keeps space_id user_id s h =
      elim (Option-cases (get_for_user_body user_id space_id s)) [
        | inl missing ↦ rw missing h
        | inr (m, found) ↦ elim (Bool-cases (text_eqb m.role owner)) [
          | inl e ↦ rw (found, e) h
          | inr e ↦
              rw (found, e)
                (replaced (remove_member_body space_id user_id) m s
                  (keeps.by_remove_member space_id user_id m s found e h))
        ]
      ]

  update-keeps :
      (existing : SpaceMembership) (patch : SpacePatch) (s : MemorySpaceState)
      → P s
      → P (Service.update memory_store existing patch (healthy s)).1.guarded
  unfolding Service.update Memory.update_space
  update-keeps existing patch s h = elim (Result-cases (patched existing patch)) [
    | inl (e, bad) ↦ rw bad h
    | inr (m, good) ↦ rw good (returned (update_space_body m) s (keeps.by_update m s h))
  ]

  delete-keeps :
      (existing : SpaceMembership) (s : MemorySpaceState)
      → P s
      → P (Service.delete memory_store existing (healthy s)).1.guarded
  unfolding Service.delete Memory.archive_space
  delete-keeps existing s h =
      replaced (archive_space_body existing.id existing.organization_id) existing s
        (keeps.by_archive existing.id existing.organization_id s h)

  run-keeps : (c : Command) (s : MemorySpaceState) → P s → P (run c s)
  unfolding run
  run-keeps (create id owner_id organization_id raw) s h =
      create-keeps id owner_id organization_id raw s h
  run-keeps (add_member space_id user_id raw) s h = add_member-keeps space_id user_id raw s h
  run-keeps (remove_member space_id user_id) s h = remove_member-keeps space_id user_id s h
  run-keeps (update existing patch) s h = update-keeps existing patch s h
  run-keeps (delete existing) s h = delete-keeps existing s h

  pub run_all-keeps : (cs : List Command) (s : MemorySpaceState) → P s → P (run_all cs s)
  unfolding run_all
  run_all-keeps [] s h = h
  run_all-keeps (c ∷ cs) s h = run_all-keeps cs (run c s) (run-keeps c s h)
