-- ===== src/Retention/Left.antt =====
-- src/domain/retention.rs: what the turns of a run leave in the four in-memory stores.
use opencord_server.Base.{
  ℕ, ◌||◌, Bool, false, List, [], ◌∷◌, All, any, length, Uuid, nat_eq, Option, none, some, ◌≡◌,
  refl, arith, ap, ◌∙◌, sym,
}
use opencord_server.Base.Time.{Chrono}
use opencord_server.Base.Map.{get, values}
use opencord_server.Base.Keyed.{IsKeyed, holds, unless, get-remove_where}
use opencord_server.Base.Once.{any-values, any-sort_by}
use opencord_server.Message.{Message}
use opencord_server.Message.Memory as Messages
use opencord_server.Message.Memory.{before, deleted_earlier}
use opencord_server.Attachment.{Attachment}
use opencord_server.Attachment.Memory as Attachments
use opencord_server.Retention.{RetentionPolicy, cutoff}
use opencord_server.Retention.Memory as Policies
use opencord_server.Retention.Memory.{MemoryRetentionState, policies, organization_leb}
use opencord_server.Retention.Effect.{Contents, IsValid, turn, is_expired_message, is_expired_file}
use opencord_server.Retention.Turns.{IsStored, turn-IsStored, turns}

-- The stored policies are within the bounds, each under its organization; and each message and
-- attachment is under its own id.
pub record IsReady (c : Contents) : Type 0 where
  pub keyed :
      IsKeyed (λ (p : RetentionPolicy). p.organization_id) c.policies.policies_by_organization_id
  pub valid : All IsValid (values c.policies.policies_by_organization_id)
  pub stored : IsStored c

unless-unless :
    {V : Type 0} (id_of : V → ℕ) (p q : V → Bool) (o : Option V)
    → unless id_of q (unless id_of p o) ≡ unless id_of (λ v. p v || q v) o
unless-unless id_of p q none = refl
unless-unless id_of p q (some v) = ground arith

pub unless-same :
    {V : Type 0} (id_of : V → ℕ) (p q : V → Bool) (o : Option V)
    → ((v : V) → p v ≡ q v)
    → unless id_of p o ≡ unless id_of q o
unless-same id_of p q none h = refl
unless-same id_of p q (some v) h = rw (h v) refl

unless-never : {V : Type 0} (id_of : V → ℕ) (o : Option V) → unless id_of (λ _. false) o ≡ o
unless-never id_of none = refl
unless-never id_of (some v) = refl

module _ (chrono : Chrono) (now : chrono.DateTime) where
  -- The policy of the message's organization, if there is one, no longer retains it.
  abbrev pub is_due_message : MemoryRetentionState → Message → Bool
  is_due_message r m =
      holds (λ (p : RetentionPolicy). p.organization_id)
        (λ p.
          before (cutoff chrono now p.messages_retain_days) m.created_at
          || deleted_earlier (cutoff chrono now p.deleted_message_purge_days) m.deleted_at)
        (get r.policies_by_organization_id m.organization_id)

  -- The same of an attachment.
  abbrev pub is_due_file : MemoryRetentionState → Attachment → Bool
  is_due_file r a =
      holds (λ (p : RetentionPolicy). p.organization_id)
        (λ p. Attachments.before (cutoff chrono now p.files_retain_days) a.created_at)
        (get r.policies_by_organization_id a.organization_id)

  pub any-is_due_message :
      (c : Contents) (m : Message)
      → IsReady c
      → any (λ p. is_expired_message chrono now p m) (policies c.policies)
        ≡ is_due_message c.policies m
  unfolding policies Messages.is_expired
  any-is_due_message c m inv =
      any-sort_by organization_leb _ (values c.policies.policies_by_organization_id)
      ∙ any-values (λ (p : RetentionPolicy). p.organization_id) _
          c.policies.policies_by_organization_id m.organization_id inv.keyed

  pub any-is_due_file :
      (c : Contents) (a : Attachment)
      → IsReady c
      → any (λ p. is_expired_file chrono now p a) (policies c.policies) ≡ is_due_file c.policies a
  unfolding policies Attachments.is_expired
  any-is_due_file c a inv =
      any-sort_by organization_leb _ (values c.policies.policies_by_organization_id)
      ∙ any-values (λ (p : RetentionPolicy). p.organization_id) _
          c.policies.policies_by_organization_id a.organization_id inv.keyed

  turn-messages :
      (run id : Uuid) (p : RetentionPolicy) (c : Contents)
      → IsStored c
      → get (turn chrono now false run p c).messages.messages_by_id id
        ≡ unless
            (λ (m : Message). m.id)
            (is_expired_message chrono now p)
            (get c.messages.messages_by_id id)
  unfolding Messages.purge_body Messages.expired_ids
  turn-messages run id p c inv =
      get-remove_where (λ (m : Message). m.id) (is_expired_message chrono now p)
        c.messages.messages_by_id id inv.messages

  pub turns-messages :
      (fresh : ℕ → Uuid) (ps : List RetentionPolicy) (c : Contents) (id : Uuid)
      → IsStored c
      → get (turns chrono now false fresh ps c).messages.messages_by_id id
        ≡ unless
            (λ (m : Message). m.id)
            (λ m. any (λ p. is_expired_message chrono now p m) ps)
            (get c.messages.messages_by_id id)
  turns-messages fresh [] c id inv =
      sym (unless-never (λ (m : Message). m.id) (get c.messages.messages_by_id id))
  turns-messages fresh (p ∷ ps) c id inv =
      let id_of = λ (m : Message). m.id in
      let c' = turn chrono now false (fresh (length ps)) p c in
      let rest = λ (m : Message). any (λ p. is_expired_message chrono now p m) ps in
      turns-messages fresh ps c' id (turn-IsStored chrono now false (fresh (length ps)) p c inv)
      ∙ ap (unless id_of rest) (turn-messages (fresh (length ps)) id p c inv)
      ∙ unless-unless id_of (is_expired_message chrono now p) rest
          (get c.messages.messages_by_id id)

  turn-files :
      (run id : Uuid) (p : RetentionPolicy) (c : Contents)
      → IsStored c
      → get (turn chrono now false run p c).attachments.attachments_by_id id
        ≡ unless
            (λ (a : Attachment). a.id)
            (is_expired_file chrono now p)
            (get c.attachments.attachments_by_id id)
  unfolding Attachments.purge_body Attachments.expired_ids
  turn-files run id p c inv =
      get-remove_where (λ (a : Attachment). a.id) (is_expired_file chrono now p)
        c.attachments.attachments_by_id id inv.attachments

  pub turns-files :
      (fresh : ℕ → Uuid) (ps : List RetentionPolicy) (c : Contents) (id : Uuid)
      → IsStored c
      → get (turns chrono now false fresh ps c).attachments.attachments_by_id id
        ≡ unless
            (λ (a : Attachment). a.id)
            (λ a. any (λ p. is_expired_file chrono now p a) ps)
            (get c.attachments.attachments_by_id id)
  turns-files fresh [] c id inv =
      sym (unless-never (λ (a : Attachment). a.id) (get c.attachments.attachments_by_id id))
  turns-files fresh (p ∷ ps) c id inv =
      let id_of = λ (a : Attachment). a.id in
      let c' = turn chrono now false (fresh (length ps)) p c in
      let rest = λ (a : Attachment). any (λ p. is_expired_file chrono now p a) ps in
      turns-files fresh ps c' id (turn-IsStored chrono now false (fresh (length ps)) p c inv)
      ∙ ap (unless id_of rest) (turn-files (fresh (length ps)) id p c inv)
      ∙ unless-unless id_of (is_expired_file chrono now p) rest
          (get c.attachments.attachments_by_id id)

  pub turns-policies :
      (dry_run : Bool) (fresh : ℕ → Uuid) (ps : List RetentionPolicy) (c : Contents)
      → (turns chrono now dry_run fresh ps c).policies.policies_by_organization_id
        ≡ c.policies.policies_by_organization_id
  turns-policies dry_run fresh [] c = refl
  turns-policies dry_run fresh (p ∷ ps) c =
      turns-policies dry_run fresh ps (turn chrono now dry_run (fresh (length ps)) p c)
      ∙ (unfold Policies.record_run_body in refl)

  pub turns-IsStored :
      (dry_run : Bool) (fresh : ℕ → Uuid) (ps : List RetentionPolicy) (c : Contents)
      → IsStored c
      → IsStored (turns chrono now dry_run fresh ps c)
  turns-IsStored dry_run fresh [] c inv = inv
  turns-IsStored dry_run fresh (p ∷ ps) c inv =
      turns-IsStored dry_run fresh ps (turn chrono now dry_run (fresh (length ps)) p c)
        (turn-IsStored chrono now dry_run (fresh (length ps)) p c inv)
