-- ===== src/Audit/Service.antt =====
-- src/domain/audit.rs: `AuditService`, over any store.
use opencord_server.Base.{if◌then◌else◌, List, Text, Uuid, text}
use opencord_server.Base.Time.{Chrono}
use opencord_server.Base.Action.{Action, ◌>>=◌, ◌>>◌, lift, pure, fail}
use opencord_server.Audit.{
  AuditEvent, NewAuditEvent, AuditExport, AuditError, invalid_input, normalize_label,
  normalize_rfc3339,
}
use opencord_server.Audit.Store.{AuditStore}

module _ (chrono : Chrono) (store : AuditStore) where
  open store use {State}

  -- `id` is the fresh `ids::new_uuid_v7()`, `now` the clock.
  unfoldable pub record_event :
      Uuid → chrono.DateTime → NewAuditEvent → Action State AuditError AuditEvent
  record_event id now input = do
    action ← lift (normalize_label input.action (text "audit action is required"))
    target_type ← lift (normalize_label input.target_type (text "audit target_type is required"))
    let event : AuditEvent = record {
      id = id;
      organization_id = input.organization_id;
      space_id = input.space_id;
      actor_user_id = input.actor_user_id;
      action = action;
      target_type = target_type;
      target_id = input.target_id;
      metadata = input.metadata;
      created_at = chrono.to_rfc3339 now;
    }
    store.create_event event
    pure event

  unfoldable pub list_for_space : Uuid → Action State AuditError (List AuditEvent)
  list_for_space space_id = store.list_for_space space_id

  unfoldable pub export_for_organization : Uuid → Text → Text → Action State AuditError AuditExport
  export_for_organization organization_id raw_from raw_to = do
    from ← lift (normalize_rfc3339 chrono raw_from (text "audit export from must be RFC3339"))
    to ← lift (normalize_rfc3339 chrono raw_to (text "audit export to must be RFC3339"))
    if chrono.is_after from to
        then fail (invalid_input (text "audit export from must be before to"))
        else do
          events ←
              store.list_for_organization_between organization_id (chrono.to_rfc3339 from)
                (chrono.to_rfc3339 to)
          pure (record {
            organization_id = organization_id;
            format = text "json";
            from = chrono.to_rfc3339 from;
            to = chrono.to_rfc3339 to;
            audit_events = events;
          })
