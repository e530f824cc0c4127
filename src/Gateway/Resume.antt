-- ===== src/Gateway/Resume.antt =====
-- Resuming a session, and the sequence number of a session.
use opencord_server.Base.{
  if◌then◌else◌, some, Option-cases, inl, inr, Text, text_eq, text_eqb, text_eqb_iff, ◌≡◌, arith,
  ◌↔◌,
}
use mathlib.Core.Option
use opencord_server.Base.Int.{ℤ, ltb_ℤ, ◌≤ℤ◌, max_ℤ}
use opencord_server.Base.Map.{get, get-insert}
use opencord_server.Gateway.{
  AuthenticatedBot, CompatGatewaySession, resumed, Sessions, resume_body, resume_found,
  update_sequence_body,
}

-- A session can be resumed with a sequence number by a bot.
pub record Resumable (s : Sessions) (session_id : Text) (bot : AuthenticatedBot) (client : ℤ)
    (session : CompatGatewaySession) : Type 0 where
  pub stored : get s session_id ≡ some session
  pub application : session.application_id ≡ bot.application_id
  pub organization : session.organization_id ≡ bot.organization_id
  pub user : session.bot_user_id ≡ bot.bot_user_id
  pub not_ahead : client ≤ℤ session.sequence

module _ (session_id : Text) (bot : AuthenticatedBot) (client : ℤ) (s : Sessions) where
  resumed-Resumable :
      (session : CompatGatewaySession)
      → (resume_body session_id bot client s).0 ≡ resumed session
      → Resumable s session_id bot client session
  unfolding resume_body
  resumed-Resumable session h = elim (Option-cases (get s session_id)) [
    | inl missing ↦ (let h' = rw (missing, resume_body) at h in cc)
    | inr (old, found) ↦
        let h' : (resume_found session_id bot client s old).0 ≡ resumed session =
          rw (found, resume_body) at h in
        ground (arith, h', found)
  ]

  Resumable-resumed :
      (session : CompatGatewaySession)
      → Resumable s session_id bot client session
      → (resume_body session_id bot client s).0 ≡ resumed session
  unfolding resume_body
  Resumable-resumed session r = rw (r.stored, resume_body) (ground (arith, r))

-- A session is resumed exactly when it is stored under the given id, belongs to the bot's
-- application, organization and user, and the client's sequence number is not ahead of it; what is
-- returned is the session as it is stored.
pub resume_body-resumed_iff :
    (session_id : Text) (bot : AuthenticatedBot) (client : ℤ) (s : Sessions)
    (session : CompatGatewaySession)
    → ((resume_body session_id bot client s).0 ≡ resumed session)
      ↔ Resumable s session_id bot client session
resume_body-resumed_iff session_id bot client s session = (
  resumed-Resumable session_id bot client s session,
  Resumable-resumed session_id bot client s session,
)

-- Whatever it answers, a resume leaves what is stored under every id as it was: the write of the
-- larger sequence number never changes one.
pub resume_body-get :
    (session_id : Text) (bot : AuthenticatedBot) (client : ℤ) (s : Sessions) (k : Text)
    → get (resume_body session_id bot client s).1 k ≡ get s k
unfolding resume_body
resume_body-get session_id bot client s k = elim (Option-cases (get s session_id)) [
  | inl missing ↦ rw (missing, resume_body)
  | inr (old, found) ↦
      rw (found, resume_body)
        (ground (
          arith,
          found,
          text_eqb_iff session_id k,
          get-insert s session_id k (record old { sequence = max_ℤ old.sequence client }),
        ))
]

abbrev pub raised : ℤ → CompatGatewaySession → CompatGatewaySession
raised n session = record session {
  sequence = if ltb_ℤ session.sequence n then n else session.sequence;
}

-- `update_sequence` raises the stored number of the session to the given one if that is larger, and
-- changes nothing else: no other session, and none at all under an unknown id.
pub update_sequence_body-get :
    (session_id : Text) (sequence : ℤ) (s : Sessions) (k : Text)
    → get (update_sequence_body session_id sequence s) k
      ≡ (if text_eqb session_id k then Option.map (raised sequence) (get s k) else get s k)
unfolding update_sequence_body
update_sequence_body-get session_id sequence s k = elim (Option-cases (get s session_id)) [
  | inl missing ↦
      rw (missing, update_sequence_body) (ground (arith, missing, text_eqb_iff session_id k))
  | inr (old, found) ↦
      rw (found, update_sequence_body)
        (ground (
          arith,
          found,
          text_eqb_iff session_id k,
          get-insert s session_id k (record old { sequence = max_ℤ old.sequence sequence }),
        ))
]
