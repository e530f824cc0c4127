-- ===== src/Gateway/Tests.antt =====
-- Tests of the gateway sessions, and the theorems at concrete inputs.
use opencord_server.Base.{ℕ, if◌then◌else◌, List, [], ◌∷◌, none, text, text_eq, ok, ◌≡◌, arith, ◌↔◌}
use opencord_server.Base.Int.{pos, ltb_ℤ}
use opencord_server.Base.Action.{healthy}
use opencord_server.Gateway.{
  AuthenticatedBot, CompatGatewaySession, CompatGatewayReplayEvent, Sessions, resumed, resume_body,
  list_replay_events_after,
}
use opencord_server.Gateway.Resume.{Resumable, resume_body-resumed_iff}
use opencord_server.Gateway.Replay.{event_at}
use opencord_server.Gateway.Complete.{append_all, latest, list_replay_events_after_complete}

abbrev session : CompatGatewaySession
session = record {
  session_id = text "s";
  application_id = 1;
  organization_id = 2;
  bot_user_id = 3;
  sequence = pos 5;
  intents = 0;
}

abbrev bot : AuthenticatedBot
bot = record { application_id = 1; organization_id = 2; bot_user_id = 3; name = text "bot" }

abbrev sessions : Sessions
sessions = (text "s", session) ∷ []

abbrev event : ℕ → ℕ → CompatGatewayReplayEvent ℕ
event n payload = record {
  session_id = text "s";
  sequence = pos n;
  event_type = text "MESSAGE_CREATE";
  payload = payload;
}

-- Events that arrive out of order, one of them twice.
abbrev history : List (CompatGatewayReplayEvent ℕ)
history = event 3 30 ∷ event 1 10 ∷ event 2 20 ∷ event 3 31 ∷ []

resume_body-resumed_iff_example :
    ((resume_body (text "s") bot (pos 4) sessions).0 ≡ resumed session)
    ↔ Resumable sessions (text "s") bot (pos 4) session
resume_body-resumed_iff_example = resume_body-resumed_iff (text "s") bot (pos 4) sessions session

list_replay_events_after_complete_example :
    (xs : List (CompatGatewayReplayEvent ℕ)) × ((list_replay_events_after
        (text "s")
        (pos 1)
        10
        (append_all history (healthy []))).0
      ≡ ok xs)
    × (event_at (pos 3) xs
        ≡ (if ltb_ℤ (pos 1) (pos 3) then latest (text "s") (pos 3) none history else none))
list_replay_events_after_complete_example =
    list_replay_events_after_complete history (text "s") (pos 1) (pos 3) 10 (omega arith)
