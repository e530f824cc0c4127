-- ===== src/Audit/Memory.antt =====
-- src/repositories/audit_memory.rs: the in-memory store of audit events.
use opencord_server.Base.{
  ℕ, ◌+◌, ◌&&◌, ◌||◌, Bool, true, false, not, nat_eqb, leb, if◌then◌else◌, List, [], ◌∷◌, ◌++◌,
  filter, length, Option, none, some, Text, Uuid, nat_eq, text_eqb, ok, sort_by, text_leb, text_ltb,
}
use opencord_server.Base.Action.{Action, Mutex, locked}
use opencord_server.Base.Map.{HashMap, get, insert, values}
use opencord_server.Audit.{AuditEvent, AuditError, store_unavailable}
use opencord_server.Audit.Store.{AuditStore}

pub record MemoryAuditState : Type 0 where
  pub events_by_space_id : HashMap Uuid (List AuditEvent)

abbrev pub empty_state : MemoryAuditState
empty_state = record { events_by_space_id = [] }

abbrev pub State : Type 0
State = Mutex MemoryAuditState

abbrev pub or_default : Option (List AuditEvent) → List AuditEvent
or_default none = []
or_default (some events) = events

-- `entry(space_id).or_default().push(event)`
unfoldable pub create_event_body : AuditEvent → Action MemoryAuditState AuditError (Unit {0})
create_event_body event s = (
  ok tt,
  record {
    events_by_space_id =
        insert s.events_by_space_id event.space_id
          (or_default (get s.events_by_space_id event.space_id) ++ event ∷ []);
  },
)

unfoldable pub create_event : AuditEvent → Action State AuditError (Unit {0})
unfolding create_event_body
create_event event = locked store_unavailable (create_event_body event)

abbrev pub id_leb : AuditEvent → AuditEvent → Bool
id_leb left right = leb left.id right.id

unfoldable pub list_for_space : Uuid → Action State AuditError (List AuditEvent)
list_for_space space_id =
    locked store_unavailable
      (λ s. (ok (sort_by id_leb (or_default (get s.events_by_space_id space_id))), s))

-- `values().flat_map(|events| events.iter())`
abbrev pub concat : List (List AuditEvent) → List AuditEvent
concat [] = []
concat (events ∷ rest) = events ++ concat rest

unfoldable pub created_leb : AuditEvent → AuditEvent → Bool
created_leb left right =
    text_ltb left.created_at right.created_at
    || text_eqb left.created_at right.created_at && leb left.id right.id

abbrev pub created_between : Uuid → Text → Text → AuditEvent → Bool
created_between organization_id from to event =
    nat_eqb event.organization_id organization_id
    && (text_leb from event.created_at && text_leb event.created_at to)

unfoldable pub list_for_organization_between :
    Uuid → Text → Text → Action State AuditError (List AuditEvent)
unfolding created_leb
list_for_organization_between organization_id from to = locked store_unavailable (λ s. (
  ok (
      sort_by created_leb
        (filter (created_between organization_id from to) (concat (values s.events_by_space_id)))),
  s,
))

-- `is_some_and(|cutoff| time < cutoff)`, and `is_none_or(|cutoff| time >= cutoff)`.
abbrev pub before : Option Text → Text → Bool
before none time = false
before (some cutoff) time = text_ltb time cutoff

abbrev pub not_before : Option Text → Text → Bool
not_before none time = true
not_before (some cutoff) time = text_leb cutoff time

unfoldable pub is_expired : Uuid → Option Text → AuditEvent → Bool
is_expired organization_id created_before event =
    nat_eqb event.organization_id organization_id && before created_before event.created_at

unfoldable pub is_retained : Uuid → Option Text → AuditEvent → Bool
is_retained organization_id created_before event =
    not (nat_eqb event.organization_id organization_id)
    || not_before created_before event.created_at

-- The loop over `values_mut`: the number of expired events, and the lists that are left.
unfoldable pub purge_lists :
    Uuid → Option Text → Bool → HashMap Uuid (List AuditEvent) → ℕ × HashMap Uuid (List AuditEvent)
unfolding is_expired is_retained
purge_lists organization_id created_before dry_run [] = (0, [])
purge_lists organization_id created_before dry_run ((space_id, events) ∷ m) =
    let rest = purge_lists organization_id created_before dry_run m in
    let kept =
      if not dry_run then filter (is_retained organization_id created_before) events else events in
    (
      length (filter (is_expired organization_id created_before) events) + rest.0,
      (space_id, kept) ∷ rest.1,
    )

unfoldable pub purge_body : Uuid → Option Text → Bool → Action MemoryAuditState AuditError ℕ
unfolding purge_lists
purge_body organization_id created_before dry_run s =
    let (purged, left) = purge_lists organization_id created_before dry_run s.events_by_space_id in
    (ok purged, record { events_by_space_id = left })

unfoldable pub purge_for_retention : Uuid → Option Text → Bool → Action State AuditError ℕ
unfolding purge_body
purge_for_retention organization_id created_before dry_run =
    locked store_unavailable (purge_body organization_id created_before dry_run)

abbrev pub memory_store : AuditStore
memory_store = record {
  State = State;
  create_event = create_event;
  list_for_space = list_for_space;
  list_for_organization_between = list_for_organization_between;
  purge_for_retention = purge_for_retention;
}
