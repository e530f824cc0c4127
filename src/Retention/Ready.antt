-- ===== src/Retention/Ready.antt =====
-- src/domain/retention.rs: the states that the services and the worker reach together.
use opencord_server.Base.{
  ℕ, Bool, not, ◌&&◌, Bool-cases, List, [], ◌∷◌, Option, none, some, All, trim, Text, Uuid, nat_eq,
  ok, ◌≡◌, refl, sym, inl, inr, ap, Option-cases, text,
}
use mathlib.Core.Path.{subst}
use opencord_server.Base.Fallible.{Result-cases, >>=-Succeeds, ok-injective}
use opencord_server.Base.Int.{ℤ, pos, ltb_ℤ}
use opencord_server.Base.Time.{Chrono}
use opencord_server.Base.Action.{healthy, state-locked}
use opencord_server.Base.Map.{values, All-values-insert}
use opencord_server.Base.Keyed.{IsKeyed, empty-IsKeyed, insert-IsKeyed}
use opencord_server.Message.{Message}
use opencord_server.Message.Memory as Messages
use opencord_server.Message.Commands as OnMessages
use opencord_server.Attachment.{Attachment}
use opencord_server.Attachment.Memory as Attachments
use opencord_server.Attachment.Commands as OnAttachments
use opencord_server.Audit.Memory as Audits
use opencord_server.Retention.{RetentionPolicy, store_unavailable, normalize_days, normalize_policy}
use opencord_server.Retention.Memory as Policies
use opencord_server.Retention.Memory.{MemoryRetentionState, policies, upsert_policy_body}
use opencord_server.Retention.Service
use opencord_server.Retention.Effect.{Contents, IsValid, memory_worker}
use opencord_server.Retention.Runs
use opencord_server.Retention.Worker.{Stores}
use opencord_server.Retention.Left.{IsReady}

normalize_days-same :
    (days : Option ℤ) (field_name : Text) (kept : Option ℤ)
    → normalize_days days field_name ≡ ok kept
    → days ≡ kept
unfolding normalize_days
normalize_days-same none field_name kept h = ok-injective h
normalize_days-same (some d) field_name kept h =
    elim (Bool-cases (not (ltb_ℤ d (pos 1)) && not (ltb_ℤ (pos 3650) d))) [
      | inl within ↦ ok-injective (rw within at h)
      | inr outside ↦ cc (rw outside at h)
    ]

normalize_days-again :
    (days : Option ℤ) (field_name : Text) (kept : Option ℤ)
    → normalize_days days field_name ≡ ok kept
    → normalize_days kept field_name ≡ ok kept
normalize_days-again days field_name kept h =
    subst (λ d. normalize_days d field_name ≡ ok kept) (normalize_days-same days field_name kept h)
      h

-- What the checks let through, they let through again as it is.
normalize_policy-IsValid : (raw p : RetentionPolicy) → normalize_policy raw ≡ ok p → IsValid p
unfolding normalize_policy
normalize_policy-IsValid raw p h =
    let m =
      >>=-Succeeds (normalize_days raw.messages_retain_days (text "messages_retain_days")) _ h in
    let f =
      >>=-Succeeds (normalize_days raw.files_retain_days (text "files_retain_days")) _
        m.then_rest in
    let a =
      >>=-Succeeds (normalize_days raw.audit_logs_retain_days (text "audit_logs_retain_days")) _
        f.then_rest in
    let d =
      >>=-Succeeds
        (normalize_days raw.deleted_message_purge_days (text "deleted_message_purge_days")) _
        a.then_rest in
    subst IsValid (ok-injective d.then_rest) (
      rw
        (
          normalize_days-again raw.messages_retain_days (text "messages_retain_days") m.value
              m.first,
          normalize_days-again raw.files_retain_days (text "files_retain_days") f.value f.first,
          normalize_days-again raw.audit_logs_retain_days (text "audit_logs_retain_days") a.value
              a.first,
          normalize_days-again raw.deleted_message_purge_days (text "deleted_message_purge_days")
              d.value d.first,
        )
        refl)

record AreValid (r : MemoryRetentionState) : Type 0 where
  keyed : IsKeyed (λ (p : RetentionPolicy). p.organization_id) r.policies_by_organization_id
  valid : All IsValid (values r.policies_by_organization_id)

upsert_policy-AreValid :
    (raw : RetentionPolicy) (r : MemoryRetentionState)
    → AreValid r
    → AreValid (Service.upsert_policy Policies.memory_store raw (healthy r)).1.guarded
unfolding Service.upsert_policy Policies.upsert_policy
upsert_policy-AreValid raw r inv = elim (Result-cases (normalize_policy raw)) [
  | inl (e, bad) ↦ rw bad inv
  | inr (p, good) ↦ rw good (
      subst AreValid (sym (state-locked store_unavailable (upsert_policy_body p) r)) (
        unfold upsert_policy_body in
        record {
          keyed =
              insert-IsKeyed (λ (p : RetentionPolicy). p.organization_id)
                r.policies_by_organization_id p inv.keyed;
          valid =
              All-values-insert IsValid r.policies_by_organization_id p.organization_id p
                (normalize_policy-IsValid raw p good) inv.valid;
        }))
]

abbrev pub empty_contents : Contents
empty_contents = record {
  policies = Policies.empty_state;
  messages = Messages.empty_state;
  attachments = Attachments.empty_state;
  audit = Audits.empty_state;
}

module _ (chrono : Chrono) where
  -- A call of a service, or a run of the worker.
  pub data Command : Type 0 where
    upsert : RetentionPolicy → Command
    run_once : (ℕ → Uuid) → Text → Bool → Command
    message : OnMessages.Command chrono → Command
    attachment : OnAttachments.Command → Command

  abbrev guarded : Stores memory_worker → Contents
  guarded t = record {
    policies = t.0.guarded;
    messages = t.1.guarded;
    attachments = t.2.guarded;
    audit = t.3.guarded;
  }

  unfoldable pub run : Command → Contents → Contents
  run (upsert raw) c = record c {
    policies = (Service.upsert_policy Policies.memory_store raw (healthy c.policies)).1.guarded;
  }
  run (run_once fresh raw dry_run) c = guarded (Runs.run_once chrono fresh raw dry_run c).1
  run (message command) c = record c { messages = OnMessages.run chrono command c.messages }
  run (attachment command) c = record c { attachments = OnAttachments.run command c.attachments }

  unfoldable pub run_all : List Command → Contents → Contents
  run_all [] c = c
  run_all (k ∷ ks) c = run_all ks (run k c)

  run_once-IsReady :
      (fresh : ℕ → Uuid) (raw : Text) (dry_run : Bool) (c : Contents)
      → IsReady c
      → IsReady (guarded (Runs.run_once chrono fresh raw dry_run c).1)
  run_once-IsReady fresh raw dry_run c inv =
      elim (Option-cases (chrono.parse_from_rfc3339 (trim raw))) [
        | inl unread ↦
            subst (λ t. IsReady (guarded t))
              (sym (Runs.run_once-unread chrono fresh raw dry_run c unread)) inv
        | inr (now, reads) ↦
            subst (λ t. IsReady (guarded t))
              (sym (ap (λ r. r.1) (Runs.run_once-turns chrono fresh raw now dry_run c reads inv)))
              (Runs.turns-IsReady chrono now dry_run fresh (policies c.policies) c inv)
      ]

  run-IsReady : (k : Command) (c : Contents) → IsReady c → IsReady (run k c)
  unfolding run
  run-IsReady (upsert raw) c inv =
      let left =
        upsert_policy-AreValid raw c.policies (record { keyed = inv.keyed; valid = inv.valid }) in
      record {
        keyed = left.keyed;
        valid = left.valid;
        stored = record { messages = inv.stored.messages; attachments = inv.stored.attachments };
      }
  run-IsReady (run_once fresh raw dry_run) c inv = run_once-IsReady fresh raw dry_run c inv
  run-IsReady (message command) c inv = record {
    keyed = inv.keyed;
    valid = inv.valid;
    stored = record {
      messages = OnMessages.run-IsStored chrono command c.messages inv.stored.messages;
      attachments = inv.stored.attachments;
    };
  }
  run-IsReady (attachment command) c inv = record {
    keyed = inv.keyed;
    valid = inv.valid;
    stored = record {
      messages = inv.stored.messages;
      attachments = OnAttachments.run-IsStored command c.attachments inv.stored.attachments;
    };
  }

  run_all_from : (ks : List Command) (c : Contents) → IsReady c → IsReady (run_all ks c)
  unfolding run_all
  run_all_from [] c inv = inv
  run_all_from (k ∷ ks) c inv = run_all_from ks (run k c) (run-IsReady k c inv)

  empty-IsReady : IsReady empty_contents
  empty-IsReady = record {
    keyed = empty-IsKeyed (λ (p : RetentionPolicy). p.organization_id);
    valid = tt;
    stored = record {
      messages = empty-IsKeyed (λ (m : Message). m.id);
      attachments = empty-IsKeyed (λ (a : Attachment). a.id);
    };
  }

  -- After any calls of the policy, message and attachment services and any runs of the worker, dry or
  -- not, on empty in-memory stores: every stored policy passes the checks on policies as it is and
  -- stands under its own organization, and each message and attachment stands under its own id.
  pub run_all-IsReady : (ks : List Command) → IsReady (run_all ks empty_contents)
  run_all-IsReady ks = run_all_from ks empty_contents empty-IsReady
