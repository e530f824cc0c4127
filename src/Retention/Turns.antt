-- ===== src/Retention/Turns.antt =====
-- src/domain/retention.rs: the turns of `run_once_at`, one after the other. Turns for different
-- organizations do not see each other.
use opencord_server.Base.{
  ℕ, Bool, true, false, nat_eqb, nat_eqb_iff, List, [], ◌∷◌, All, any, map, length, Uuid, nat_eq,
  Result, ok, ◌≡◌, refl, arith, ap, ◌∙◌,
}
use opencord_server.Base.Time.{Chrono}
use opencord_server.Base.Action.{Action, next}
use opencord_server.Base.Keyed.{IsKeyed, remove_all-IsKeyed}
use opencord_server.Base.Once.{Once, filter-remove_apart}
use opencord_server.Message.{Message}
use opencord_server.Message.Memory as Messages
use opencord_server.Message.Memory.{MemoryMessageState}
use opencord_server.Attachment.{Attachment}
use opencord_server.Attachment.Memory as Attachments
use opencord_server.Attachment.Memory.{MemoryAttachmentState}
use opencord_server.Audit.Purge.{purge_lists-count, purge_lists-other}
use opencord_server.Retention.{RetentionPolicy, RetentionRunSummary, RetentionError, cutoff}
use opencord_server.Retention.Worker
use opencord_server.Retention.Worker.{add_up, Stores}
use opencord_server.Retention.Effect.{
  memory_worker, Contents, unlocked, IsValid, messages_count, files_count, expired_messages,
  expired_files, is_expired_message, is_expired_file, purge_events, turn, run_policy-turn,
  purge_messages, purge_files,
}

pub record IsStored (c : Contents) : Type 0 where
  pub messages : IsKeyed (λ (m : Message). m.id) c.messages.messages_by_id
  pub attachments : IsKeyed (λ (a : Attachment). a.id) c.attachments.attachments_by_id

module _ (chrono : Chrono) (now : chrono.DateTime) where
  pub turn-IsStored :
      (dry_run : Bool) (id : Uuid) (p : RetentionPolicy) (c : Contents)
      → IsStored c
      → IsStored (turn chrono now dry_run id p c)
  unfolding Messages.purge_body Attachments.purge_body
  turn-IsStored true id p c inv = record { messages = inv.messages; attachments = inv.attachments }
  turn-IsStored false id p c inv = record {
    messages =
        remove_all-IsKeyed (λ (m : Message). m.id) (expired_messages chrono now p c.messages)
          c.messages.messages_by_id inv.messages;
    attachments =
        remove_all-IsKeyed (λ (a : Attachment). a.id) (expired_files chrono now p c.attachments)
          c.attachments.attachments_by_id inv.attachments;
  }

  messages_count-turn :
      (dry_run : Bool) (p q : RetentionPolicy) (m : MemoryMessageState)
      → IsKeyed (λ (m : Message). m.id) m.messages_by_id
      → nat_eqb p.organization_id q.organization_id ≡ false
      → messages_count chrono now q (purge_messages chrono now dry_run p m).1
        ≡ messages_count chrono now q m
  unfolding Messages.purge_body Messages.expired_ids Messages.is_expired
  messages_count-turn true p q m inv ne = refl
  messages_count-turn false p q m inv ne =
      ap (λ ms. length (map (λ (m : Message). m.id) ms))
        (filter-remove_apart (λ (m : Message). m.id) (is_expired_message chrono now p)
          (is_expired_message chrono now q) m.messages_by_id inv
          (λ v h. ground (
            arith,
            h,
            ne,
            nat_eqb_iff v.organization_id p.organization_id,
            nat_eqb_iff v.organization_id q.organization_id,
            nat_eqb_iff p.organization_id q.organization_id,
          )))

  files_count-turn :
      (dry_run : Bool) (p q : RetentionPolicy) (a : MemoryAttachmentState)
      → IsKeyed (λ (a : Attachment). a.id) a.attachments_by_id
      → nat_eqb p.organization_id q.organization_id ≡ false
      → files_count chrono now q (purge_files chrono now dry_run p a).1 ≡ files_count chrono now q a
  unfolding Attachments.purge_body Attachments.expired_ids Attachments.is_expired
  files_count-turn true p q a inv ne = refl
  files_count-turn false p q a inv ne =
      ap (λ xs. length (map (λ (a : Attachment). a.id) xs))
        (filter-remove_apart (λ (a : Attachment). a.id) (is_expired_file chrono now p)
          (is_expired_file chrono now q) a.attachments_by_id inv
          (λ v h. ground (
            arith,
            h,
            ne,
            nat_eqb_iff v.organization_id p.organization_id,
            nat_eqb_iff v.organization_id q.organization_id,
            nat_eqb_iff p.organization_id q.organization_id,
          )))

  -- What a purge counts in the stores as they are.
  abbrev pub counts : RetentionPolicy → Contents → ℕ × ℕ × ℕ
  counts p c = (
    messages_count chrono now p c.messages,
    files_count chrono now p c.attachments,
    (purge_events chrono now true p c.audit).0,
  )

  counts-turn :
      (dry_run : Bool) (id : Uuid) (p q : RetentionPolicy) (c : Contents)
      → IsStored c
      → nat_eqb p.organization_id q.organization_id ≡ false
      → counts q (turn chrono now dry_run id p c) ≡ counts q c
  counts-turn dry_run id p q c inv ne =
      rw
        (
          messages_count-turn dry_run p q c.messages inv.messages ne,
          files_count-turn dry_run p q c.attachments inv.attachments ne,
          purge_lists-other p.organization_id q.organization_id
              (cutoff chrono now p.audit_logs_retain_days)
              (cutoff chrono now q.audit_logs_retain_days) dry_run c.audit.events_by_space_id ne,
        )
        refl

  counts-turn-All :
      (dry_run : Bool) (id : Uuid) (p : RetentionPolicy) (ps : List RetentionPolicy) (c : Contents)
      → IsStored c
      → any (λ (q : RetentionPolicy). nat_eqb p.organization_id q.organization_id) ps ≡ false
      → All (λ q. counts q (turn chrono now dry_run id p c) ≡ counts q c) ps
  counts-turn-All dry_run id p [] c inv ne = tt
  counts-turn-All dry_run id p (q ∷ ps) c inv ne = (
    counts-turn dry_run id p q c inv (ground (arith, ne)),
    counts-turn-All dry_run id p ps c inv (ground (arith, ne)),
  )

  -- The summary of the purges under each policy of the stores as they are.
  abbrev pub totals : RetentionRunSummary → List RetentionPolicy → Contents → RetentionRunSummary
  totals summary [] c = summary
  totals summary (p ∷ ps) c = totals (add_up memory_worker chrono summary (counts p c)) ps c

  totals-same :
      (summary : RetentionRunSummary) (ps : List RetentionPolicy) (c c' : Contents)
      → All (λ q. counts q c' ≡ counts q c) ps
      → totals summary ps c' ≡ totals summary ps c
  totals-same summary [] c c' h = refl
  totals-same summary (p ∷ ps) c c' (h, hs) =
      totals-same (add_up memory_worker chrono summary (counts p c')) ps c c' hs
      ∙ ap (λ n. totals (add_up memory_worker chrono summary n) ps c) h

  abbrev pub turns : Bool → (ℕ → Uuid) → List RetentionPolicy → Contents → Contents
  turns dry_run fresh [] c = c
  turns dry_run fresh (p ∷ ps) c =
      turns dry_run fresh ps (turn chrono now dry_run (fresh (length ps)) p c)

  -- The loop from the summary, for the policies, on the stores.
  abbrev loop :
      Bool
      → (ℕ → Uuid)
      → List RetentionPolicy
      → RetentionRunSummary
      → Contents
      → Result RetentionError RetentionRunSummary × Stores memory_worker
  loop dry_run fresh ps summary c =
      Worker.run_policies memory_worker chrono fresh now dry_run summary ps (unlocked c)

  loop-turn :
      (dry_run : Bool) (fresh : ℕ → Uuid) (summary : RetentionRunSummary) (p : RetentionPolicy)
      (ps : List RetentionPolicy) (c : Contents)
      → IsValid p
      → loop dry_run fresh (p ∷ ps) summary c
        ≡ loop dry_run fresh ps
            (add_up memory_worker chrono summary (counts p c))
            (turn chrono now dry_run (fresh (length ps)) p c)
  loop-turn dry_run fresh summary p ps c valid =
      first
      ∙ ap (next rest) (run_policy-turn chrono now dry_run (fresh (length ps)) p c valid)
      ∙ ap
          (λ n.
            loop dry_run fresh ps
              (add_up memory_worker chrono summary
                (messages_count chrono now p c.messages, files_count chrono now p c.attachments, n))
              (turn chrono now dry_run (fresh (length ps)) p c))
          (purge_lists-count p.organization_id (cutoff chrono now p.audit_logs_retain_days) dry_run
            c.audit.events_by_space_id)
    where
      rest : ℕ × ℕ × ℕ → Action (Stores memory_worker) RetentionError RetentionRunSummary
      rest n =
          Worker.run_policies memory_worker chrono fresh now dry_run
            (add_up memory_worker chrono summary n) ps

      first :
          loop dry_run fresh (p ∷ ps) summary c
          ≡ next rest (
              Worker.run_policy memory_worker chrono now dry_run (fresh (length ps)) p (unlocked c))
      first = unfold Worker.run_policies in refl

  -- The loop ends well, with the totals of the stores as they were before it.
  pub run_policies-turns :
      (dry_run : Bool) (fresh : ℕ → Uuid) (summary : RetentionRunSummary)
      (ps : List RetentionPolicy) (c : Contents)
      → All IsValid ps
      → Once (λ (p : RetentionPolicy). p.organization_id) ps
      → IsStored c
      → Worker.run_policies memory_worker chrono fresh now dry_run summary ps (unlocked c)
        ≡ (ok (totals summary ps c), unlocked (turns dry_run fresh ps c))
  run_policies-turns dry_run fresh summary [] c valid once inv = unfold Worker.run_policies in refl
  run_policies-turns dry_run fresh summary (p ∷ ps) c (v, vs) (one, once) inv =
      let id = fresh (length ps) in
      let c' = turn chrono now dry_run id p c in
      let summary' = add_up memory_worker chrono summary (counts p c) in
      loop-turn dry_run fresh summary p ps c v
      ∙ run_policies-turns dry_run fresh summary' ps c' vs once (turn-IsStored dry_run id p c inv)
      ∙ ap (λ t. (ok t, unlocked (turns dry_run fresh ps c')))
          (totals-same summary' ps c c' (counts-turn-All dry_run id p ps c inv one))
