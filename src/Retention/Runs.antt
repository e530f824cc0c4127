-- ===== src/Retention/Runs.antt =====
-- src/domain/retention.rs: whole runs of the worker over the four in-memory stores.
use opencord_server.Base.{
  ℕ, Bool, true, false, List, [], ◌∷◌, All, length, trim, none, some, Result, ok, ◌≡◌, refl, ap,
  ◌∙◌, sym, Text, text, Uuid, nat_eq,
}
use mathlib.Core.Path.{subst}
use opencord_server.Base.Time.{Chrono}
use opencord_server.Base.Action.{Action, next, ◌>>=◌}
use opencord_server.Base.Map.{get, values}
use opencord_server.Base.Keyed.{IsKeyed, unless}
use opencord_server.Base.Once.{All-sort_by, sort_by-Once, values-Once}
use opencord_server.Message.{Message}
use opencord_server.Message.Memory as Messages
use opencord_server.Attachment.{Attachment}
use opencord_server.Attachment.Memory as Attachments
use opencord_server.Audit.Purge.{purge_lists-dry_run}
use opencord_server.Retention.{RetentionPolicy, RetentionRunSummary, RetentionError, parse_time}
use opencord_server.Retention.Memory as Policies
use opencord_server.Retention.Memory.{MemoryRetentionState, policies, organization_leb}
use opencord_server.Retention.Worker
use opencord_server.Retention.Worker.{Stores, add_up, on_retention}
use opencord_server.Retention.Effect.{memory_worker, Contents, unlocked, IsValid, turn}
use opencord_server.Retention.Turns.{totals, turns, run_policies-turns, counts}
use opencord_server.Retention.Left.{
  IsReady, is_due_message, is_due_file, any-is_due_message, any-is_due_file, turns-messages,
  turns-files, turns-policies, turns-IsStored, unless-same,
}

module _ (chrono : Chrono) where
  abbrev pub run_once :
      (ℕ → Uuid)
      → Text
      → Bool
      → Contents
      → Result RetentionError RetentionRunSummary × Stores memory_worker
  run_once fresh raw dry_run c =
      Worker.run_once_at memory_worker chrono fresh raw dry_run (unlocked c)

  abbrev start : Bool → List RetentionPolicy → RetentionRunSummary
  start dry_run ps = record {
    organizations_scanned = length ps;
    messages_purged = 0;
    files_purged = 0;
    audit_events_purged = 0;
    dry_run = dry_run;
  }

  -- `run_once_at` once the time is read.
  abbrev after_reading :
      (ℕ → Uuid)
      → Bool
      → chrono.DateTime
      → Action (Stores memory_worker) RetentionError RetentionRunSummary
  after_reading fresh dry_run now = on_retention memory_worker Policies.list_policies >>= λ ps.
      Worker.run_policies memory_worker chrono fresh now dry_run (start dry_run ps) ps

  run_once-read :
      (fresh : ℕ → Uuid) (raw : Text) (dry_run : Bool) (c : Contents)
      → run_once fresh raw dry_run c
        ≡ next
            (after_reading fresh dry_run)
            (parse_time chrono raw (text "retention run timestamp must be RFC3339"), unlocked c)
  unfolding Worker.run_once_at
  run_once-read fresh raw dry_run c = refl

  after_reading-unlocked :
      (fresh : ℕ → Uuid) (dry_run : Bool) (now : chrono.DateTime) (c : Contents)
      → after_reading fresh dry_run now (unlocked c)
        ≡ Worker.run_policies memory_worker chrono fresh now dry_run
            (start dry_run (policies c.policies))
            (policies c.policies)
            (unlocked c)
  unfolding Policies.list_policies
  after_reading-unlocked fresh dry_run now c = refl

  parse_time-reads :
      (raw message : Text) (now : chrono.DateTime)
      → chrono.parse_from_rfc3339 (trim raw) ≡ some now
      → parse_time chrono raw message ≡ ok now
  unfolding parse_time
  parse_time-reads raw message now reads = rw (reads, parse_time) refl

  pub run_once-turns :
      (fresh : ℕ → Uuid) (raw : Text) (now : chrono.DateTime) (dry_run : Bool) (c : Contents)
      → chrono.parse_from_rfc3339 (trim raw) ≡ some now
      → IsReady c
      → run_once fresh raw dry_run c ≡ (
        ok (totals chrono now (start dry_run (policies c.policies)) (policies c.policies) c),
        unlocked (turns chrono now dry_run fresh (policies c.policies) c),
      )
  run_once-turns fresh raw now dry_run c reads inv =
      let by_organization = λ (p : RetentionPolicy). p.organization_id in
      let stored = values c.policies.policies_by_organization_id in
      run_once-read fresh raw dry_run c
      ∙ ap (λ t. next (after_reading fresh dry_run) (t, unlocked c))
          (parse_time-reads raw (text "retention run timestamp must be RFC3339") now reads)
      ∙ after_reading-unlocked fresh dry_run now c
      ∙ (run_policies-turns chrono now dry_run fresh (start dry_run (policies c.policies))
          (policies c.policies) c
          (unfold policies in All-sort_by organization_leb IsValid stored inv.valid)
          (unfold policies in
            sort_by-Once by_organization organization_leb stored
              (values-Once by_organization c.policies.policies_by_organization_id inv.keyed))
          inv.stored)

  pub run_once-unread :
      (fresh : ℕ → Uuid) (raw : Text) (dry_run : Bool) (c : Contents)
      → chrono.parse_from_rfc3339 (trim raw) ≡ none
      → (run_once fresh raw dry_run c).1 ≡ unlocked c
  unfolding parse_time
  run_once-unread fresh raw dry_run c unread =
      ap (λ r. r.1) (run_once-read fresh raw dry_run c) ∙ rw (unread, parse_time) refl

  pub turns-IsReady :
      (now : chrono.DateTime) (dry_run : Bool) (fresh : ℕ → Uuid) (ps : List RetentionPolicy)
      (c : Contents)
      → IsReady c
      → IsReady (turns chrono now dry_run fresh ps c)
  turns-IsReady now dry_run fresh ps c inv = record {
    keyed =
        subst (IsKeyed (λ (p : RetentionPolicy). p.organization_id))
          (sym (turns-policies chrono now dry_run fresh ps c)) inv.keyed;
    valid =
        subst (λ m. All IsValid (values m)) (sym (turns-policies chrono now dry_run fresh ps c))
          inv.valid;
    stored = turns-IsStored chrono now dry_run fresh ps c inv.stored;
  }

  scanned :
      (now : chrono.DateTime) (summary : RetentionRunSummary) (ps : List RetentionPolicy)
      (c : Contents)
      → (totals chrono now summary ps c).organizations_scanned ≡ summary.organizations_scanned
  scanned now summary [] c = refl
  scanned now summary (p ∷ ps) c =
      scanned now (add_up memory_worker chrono summary (counts chrono now p c)) ps c

  -- If the clock's text is read as a time, the stored policies are within their bounds and the stores
  -- keep their values under their own ids, with no lock poisoned, then a run succeeds and scans every
  -- stored policy. It leaves, under each id, the message that was there unless the policy of its
  -- organization no longer retains it, and the attachment likewise; and the stores stay as required.
  pub run_once_at_exact :
      (fresh : ℕ → Uuid) (raw : Text) (now : chrono.DateTime) (c : Contents)
      → chrono.parse_from_rfc3339 (trim raw) ≡ some now
      → IsReady c
      → let (r, t) = run_once fresh raw false c in
        (summary : RetentionRunSummary) × (c' : Contents) × (r ≡ ok summary)
        × (t ≡ unlocked c')
        × (summary.organizations_scanned ≡ length (policies c.policies))
        × ((id : Uuid)
            → get c'.messages.messages_by_id id
              ≡ unless
                  (λ (m : Message). m.id)
                  (is_due_message chrono now c.policies)
                  (get c.messages.messages_by_id id))
        × ((id : Uuid)
            → get c'.attachments.attachments_by_id id
              ≡ unless
                  (λ (a : Attachment). a.id)
                  (is_due_file chrono now c.policies)
                  (get c.attachments.attachments_by_id id))
        × IsReady c'
  run_once_at_exact fresh raw now c reads inv =
      let ps = policies c.policies in
      let ran = run_once-turns fresh raw now false c reads inv in
      (
        totals chrono now (start false ps) ps c,
        turns chrono now false fresh ps c,
        ap (λ r. r.0) ran,
        ap (λ r. r.1) ran,
        scanned now (start false ps) ps c,
        (λ id.
            turns-messages chrono now fresh ps c id inv.stored
            ∙ unless-same (λ (m : Message). m.id) _ _ (get c.messages.messages_by_id id)
                (λ m. any-is_due_message chrono now c m inv)),
        (λ id.
            turns-files chrono now fresh ps c id inv.stored
            ∙ unless-same (λ (a : Attachment). a.id) _ _ (get c.attachments.attachments_by_id id)
                (λ a. any-is_due_file chrono now c a inv)),
        turns-IsReady now false fresh ps c inv,
      )

  totals-dry_run :
      (now : chrono.DateTime) (summary : RetentionRunSummary) (ps : List RetentionPolicy)
      (c : Contents)
      → totals chrono now (record summary { dry_run = true }) ps c
        ≡ record (totals chrono now summary ps c) { dry_run = true }
  totals-dry_run now summary [] c = refl
  totals-dry_run now summary (p ∷ ps) c =
      totals-dry_run now (add_up memory_worker chrono summary (counts chrono now p c)) ps c

  abbrev pub SameButRuns : Contents → Contents → Type 0
  SameButRuns c c' =
      (c'.messages ≡ c.messages)
      × (c'.attachments ≡ c.attachments)
      × (c'.audit ≡ c.audit)
      × (c'.policies.policies_by_organization_id ≡ c.policies.policies_by_organization_id)

  turns-dry_run :
      (now : chrono.DateTime) (fresh : ℕ → Uuid) (ps : List RetentionPolicy) (c : Contents)
      → SameButRuns c (turns chrono now true fresh ps c)
  turns-dry_run now fresh [] c = (refl, refl, refl, refl)
  turns-dry_run now fresh (p ∷ ps) c =
      let (m, a, u, q) =
        turns-dry_run now fresh ps (turn chrono now true (fresh (length ps)) p c) in
      (
        m ∙ (unfold Messages.purge_body in refl),
        a ∙ (unfold Attachments.purge_body in refl),
        u
            ∙ ap (λ events. record { events_by_space_id = events })
                (purge_lists-dry_run p.organization_id _ c.audit.events_by_space_id),
        q ∙ (unfold Policies.record_run_body in refl),
      )

  -- If the clock's text is read as a time, the stored policies are within their bounds and the stores
  -- keep their values under their own ids, with no lock poisoned, then a dry run succeeds with the very
  -- numbers that the run itself, at the same time and on the same stores, reports; and it leaves
  -- messages, attachments, audit events and policies as they are.
  pub run_once_at-dry_run :
      (fresh : ℕ → Uuid) (raw : Text) (now : chrono.DateTime) (c : Contents)
      → chrono.parse_from_rfc3339 (trim raw) ≡ some now
      → IsReady c
      → (summary : RetentionRunSummary) × (c' : Contents) × ((run_once fresh raw false c).0
          ≡ ok summary)
        × ((run_once fresh raw true c).0 ≡ ok (record summary { dry_run = true }))
        × ((run_once fresh raw true c).1 ≡ unlocked c')
        × SameButRuns c c'
  run_once_at-dry_run fresh raw now c reads inv =
      let ps = policies c.policies in
      let ran = run_once-turns fresh raw now true c reads inv in
      (
        totals chrono now (start false ps) ps c,
        turns chrono now true fresh ps c,
        ap (λ r. r.0) (run_once-turns fresh raw now false c reads inv),
        ap (λ r. r.0) ran ∙ ap ok (totals-dry_run now (start false ps) ps c),
        ap (λ r. r.1) ran,
        turns-dry_run now fresh ps c,
      )
