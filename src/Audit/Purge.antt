-- ===== src/Audit/Purge.antt =====
-- src/repositories/audit_memory.rs: what the loop of `purge_for_retention` counts and leaves.
use opencord_server.Base.{
  ◌+◌, Bool, true, false, nat_eqb, nat_eqb_iff, List, [], ◌∷◌, filter, length, Option, Text, Uuid,
  ◌≡◌, refl, arith, ap,
}
use opencord_server.Base.Map.{HashMap}
use opencord_server.Audit.{AuditEvent}
use opencord_server.Audit.Memory.{purge_lists, is_expired, is_retained}

pub purge_lists-dry_run :
    (organization_id : Uuid) (cutoff : Option Text) (m : HashMap Uuid (List AuditEvent))
    → (purge_lists organization_id cutoff true m).1 ≡ m
unfolding purge_lists
purge_lists-dry_run organization_id cutoff [] = refl
purge_lists-dry_run organization_id cutoff ((space_id, events) ∷ m) =
    ap (λ rest. (space_id, events) ∷ rest) (purge_lists-dry_run organization_id cutoff m)

-- A dry run counts what the purge counts.
pub purge_lists-count :
    (organization_id : Uuid) (cutoff : Option Text) (dry_run : Bool)
    (m : HashMap Uuid (List AuditEvent))
    → (purge_lists organization_id cutoff dry_run m).0
      ≡ (purge_lists organization_id cutoff true m).0
unfolding purge_lists
purge_lists-count organization_id cutoff dry_run [] = refl
purge_lists-count organization_id cutoff dry_run ((space_id, events) ∷ m) =
    ap (λ n. length (filter (is_expired organization_id cutoff) events) + n)
      (purge_lists-count organization_id cutoff dry_run m)

expired-retained :
    (organization_id other : Uuid) (cutoff cutoff' : Option Text) (events : List AuditEvent)
    → nat_eqb organization_id other ≡ false
    → filter (is_expired other cutoff') (filter (is_retained organization_id cutoff) events)
      ≡ filter (is_expired other cutoff') events
unfolding is_expired is_retained
expired-retained organization_id other cutoff cutoff' [] ne = refl
expired-retained organization_id other cutoff cutoff' (e ∷ events) ne = ground (
  arith,
  expired-retained organization_id other cutoff cutoff' events ne,
  nat_eqb_iff e.organization_id organization_id,
  nat_eqb_iff e.organization_id other,
  nat_eqb_iff organization_id other,
)

-- A purge for one organization does not change what is counted for another.
pub purge_lists-other :
    (organization_id other : Uuid) (cutoff cutoff' : Option Text) (dry_run : Bool)
    (m : HashMap Uuid (List AuditEvent))
    → nat_eqb organization_id other ≡ false
    → (purge_lists other cutoff' true (purge_lists organization_id cutoff dry_run m).1).0
      ≡ (purge_lists other cutoff' true m).0
unfolding purge_lists
purge_lists-other organization_id other cutoff cutoff' dry_run [] ne = refl
purge_lists-other organization_id other cutoff cutoff' true ((space_id, events) ∷ m) ne =
    ap (λ n. length (filter (is_expired other cutoff') events) + n)
      (purge_lists-other organization_id other cutoff cutoff' true m ne)
purge_lists-other organization_id other cutoff cutoff' false ((space_id, events) ∷ m) ne =
    rw
      (
        expired-retained organization_id other cutoff cutoff' events ne,
        purge_lists-other organization_id other cutoff cutoff' false m ne,
      )
      refl
