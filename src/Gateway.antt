-- ===== src/Gateway.antt =====
-- src/domain/compat_gateway.rs and src/repositories/compat_gateway_memory.rs: the sessions of the
-- compatibility gateway and the events kept for replay, in the in-memory store. Each of the two
-- tables has a lock of its own. `CompatGatewaySessions` hands its calls to the store unchanged.
pub mod Replay
pub mod Complete
pub mod Resume
mod Tests
use opencord_server.Base.{
  ℕ, ◌&&◌, ◌||◌, Bool, true, false, not, nat_eqb, if◌then◌else◌, List, [], ◌∷◌, ◌++◌, filter, any,
  take, sort_by, Option, none, some, Text, Uuid, text_eq, Result, ok, err,
}
use opencord_server.Base.Int.{ℤ, ltb_ℤ, eqb_ℤ, max_ℤ}
use opencord_server.Base.Action.{Action, Mutex, locked, healthy}
use opencord_server.Base.Map.{HashMap, get, insert}

pub record AuthenticatedBot : Type 0 where
  pub application_id : Uuid
  pub organization_id : Uuid
  pub bot_user_id : Uuid
  pub name : Text

pub record CompatGatewaySession : Type 0 where
  pub session_id : Text
  pub application_id : Uuid
  pub organization_id : Uuid
  pub bot_user_id : Uuid
  pub sequence : ℤ
  pub intents : ℕ

pub data CompatGatewayResumeResult : Type 0 where
  resumed : CompatGatewaySession → CompatGatewayResumeResult
  invalid_sequence not_found : CompatGatewayResumeResult

pub data CompatGatewayError : Type 0 where
  store_unavailable : CompatGatewayError

-- The payload is a JSON value that nothing here looks into.
pub record CompatGatewayReplayEvent (Value : Type 0) : Type 0 where
  pub session_id : Text
  pub sequence : ℤ
  pub event_type : Text
  pub payload : Value

abbrev pub Sessions : Type 0
Sessions = HashMap Text CompatGatewaySession

abbrev pub Events : Type 0 → Type 0
Events Value = HashMap Text (List (CompatGatewayReplayEvent Value))

unfoldable pub create_session :
    CompatGatewaySession → Action (Mutex Sessions) CompatGatewayError CompatGatewaySession
create_session session =
    locked store_unavailable (λ s. (ok session, insert s session.session_id session))

-- `CompatGatewaySessions::create`
unfoldable pub create :
    Text
    → AuthenticatedBot
    → ℤ
    → ℕ
    → Action (Mutex Sessions) CompatGatewayError CompatGatewaySession
unfolding create_session
create session_id bot sequence intents = create_session (record {
  session_id = session_id;
  application_id = bot.application_id;
  organization_id = bot.organization_id;
  bot_user_id = bot.bot_user_id;
  sequence = sequence;
  intents = intents;
})

unfoldable pub update_sequence_body : Text → ℤ → Sessions → Sessions
update_sequence_body session_id sequence s = elim (get s session_id) [
  | none ↦ s
  | some session ↦
      insert s session_id (record session { sequence = max_ℤ session.sequence sequence })
]

unfoldable pub update_sequence : Text → ℤ → Action (Mutex Sessions) CompatGatewayError (Unit {0})
unfolding update_sequence_body
update_sequence session_id sequence =
    locked store_unavailable (λ s. (ok tt, update_sequence_body session_id sequence s))

abbrev pub belongs_to : CompatGatewaySession → AuthenticatedBot → Bool
belongs_to session bot =
    nat_eqb session.application_id bot.application_id
    && nat_eqb session.organization_id bot.organization_id
    && nat_eqb session.bot_user_id bot.bot_user_id

-- The code under the lock, once the session is found.
unfoldable pub resume_found :
    Text
    → AuthenticatedBot
    → ℤ
    → Sessions
    → CompatGatewaySession
    → CompatGatewayResumeResult × Sessions
resume_found session_id bot client_sequence s session =
    if not (belongs_to session bot)
    then (not_found, s)
    else if ltb_ℤ session.sequence client_sequence
    then (invalid_sequence, s)
    else (let session' = record session { sequence = max_ℤ session.sequence client_sequence } in
        (resumed session', insert s session_id session'))

unfoldable pub resume_body :
    Text → AuthenticatedBot → ℤ → Sessions → CompatGatewayResumeResult × Sessions
unfolding resume_found
resume_body session_id bot client_sequence s = elim (get s session_id) [
  | none ↦ (not_found, s)
  | some session ↦ resume_found session_id bot client_sequence s session
]

unfoldable pub resume_session :
    Text
    → AuthenticatedBot
    → ℤ
    → Action (Mutex Sessions) CompatGatewayError CompatGatewayResumeResult
unfolding resume_body
resume_session session_id bot client_sequence =
    locked store_unavailable
      (λ s. let (r, s') = resume_body session_id bot client_sequence s in (ok r, s'))

module _ {Value : Type 0} where
  -- `unwrap_or_default` and `or_insert_with(Vec::new)`
  abbrev pub events_of : Text → Events Value → List (CompatGatewayReplayEvent Value)
  events_of session_id m = elim (get m session_id) [ none ↦ [] | some events ↦ events ]

  -- `*existing = event` at the first event of that sequence number.
  unfoldable pub replace_first :
      CompatGatewayReplayEvent Value
      → List (CompatGatewayReplayEvent Value)
      → List (CompatGatewayReplayEvent Value)
  replace_first event [] = []
  replace_first event (x ∷ xs) =
      if eqb_ℤ x.sequence event.sequence then event ∷ xs else x ∷ replace_first event xs

  -- `sort_by_key(|event| event.sequence)`
  abbrev pub by_sequence : CompatGatewayReplayEvent Value → CompatGatewayReplayEvent Value → Bool
  by_sequence a b = not (ltb_ℤ b.sequence a.sequence)

  unfoldable pub append_event :
      CompatGatewayReplayEvent Value
      → List (CompatGatewayReplayEvent Value)
      → List (CompatGatewayReplayEvent Value)
  unfolding replace_first
  append_event event events =
      if any (λ x. eqb_ℤ x.sequence event.sequence) events
      then replace_first event events
      else sort_by by_sequence (events ++ event ∷ [])

  unfoldable pub append_replay_event :
      CompatGatewayReplayEvent Value → Action (Mutex (Events Value)) CompatGatewayError (Unit {0})
  unfolding append_event
  append_replay_event event =
      locked store_unavailable (λ m.
        (ok tt, insert m event.session_id (append_event event (events_of event.session_id m))))

  unfoldable pub events_after :
      ℤ → ℕ → List (CompatGatewayReplayEvent Value) → List (CompatGatewayReplayEvent Value)
  events_after sequence limit events = take limit (filter (λ e. ltb_ℤ sequence e.sequence) events)

  unfoldable pub list_replay_events_after :
      Text
      → ℤ
      → ℕ
      → Action (Mutex (Events Value)) CompatGatewayError (List (CompatGatewayReplayEvent Value))
  unfolding events_after
  list_replay_events_after session_id sequence limit =
      locked store_unavailable (λ m. (ok (events_after sequence limit (events_of session_id m)), m))
