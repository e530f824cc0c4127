-- ===== src/Gateway/Complete.antt =====
-- A whole history of appended events, and what a client is sent when it asks for the events after a
-- sequence number.
use opencord_server.Base.{
  ℕ, ◌≤◌, ◌+◌, if◌then◌else◌, ◌&&◌, List, [], ◌∷◌, filter, take_all, length, length-filter,
  length-take, suc, All-take, Option, none, some, Text, text_eq, text_eqb, text_eqb_iff, ok, ◌≡◌,
  refl, arith, ◌∙◌, ap,
}
use opencord_server.Base.Int.{ℤ, ltb_ℤ, eqb_ℤ, ◌<ℤ◌}
use opencord_server.Base.Action.{Mutex, healthy}
use opencord_server.Base.Map.{get, get-insert}
use opencord_server.Gateway.{
  CompatGatewayReplayEvent, Events, events_of, append_event, append_replay_event, events_after,
  list_replay_events_after,
}
use opencord_server.Gateway.Replay.{
  Above, Ascending, append_event-Ascending, event_at, event_at-append_event, event_at-above,
  filter-Above, filter-Ascending, take-Ascending, length-append_event,
}

module _ {Value : Type 0} where
  -- The store after a history of appends, oldest first.
  unfoldable pub append_all :
      List (CompatGatewayReplayEvent Value) → Mutex (Events Value) → Mutex (Events Value)
  append_all [] m = m
  append_all (e ∷ es) m = append_all es (append_replay_event e m).1

  -- The last event of a history for a session and a sequence number.
  unfoldable pub latest :
      Text
      → ℤ
      → Option (CompatGatewayReplayEvent Value)
      → List (CompatGatewayReplayEvent Value)
      → Option (CompatGatewayReplayEvent Value)
  latest session_id n last [] = last
  latest session_id n last (e ∷ es) =
      latest session_id n
        (if text_eqb e.session_id session_id && eqb_ℤ e.sequence n then some e else last) es

  events_of-append :
      (e : CompatGatewayReplayEvent Value) (m : Events Value) (session_id : Text)
      → events_of session_id (append_replay_event e (healthy m)).1.guarded ≡ (
          if text_eqb e.session_id session_id
          then append_event e (events_of session_id m)
          else events_of session_id m)
  unfolding append_replay_event
  events_of-append e m session_id = ground (
    arith,
    text_eqb_iff e.session_id session_id,
    get-insert m e.session_id session_id (append_event e (events_of e.session_id m)),
  )

  append-healthy :
      (e : CompatGatewayReplayEvent Value) (m : Events Value)
      → (append_replay_event e (healthy m)).1
        ≡ healthy (append_replay_event e (healthy m)).1.guarded
  unfolding append_replay_event
  append-healthy e m = refl

  append_all-healthy :
      (es : List (CompatGatewayReplayEvent Value)) (m : Events Value)
      → append_all es (healthy m) ≡ healthy (append_all es (healthy m)).guarded
  unfolding append_all append_replay_event
  append_all-healthy [] m = refl
  append_all-healthy (e ∷ es) m =
      append_all-healthy es (append_replay_event e (healthy m)).1.guarded

  -- The events that a session has after a history.
  abbrev history :
      Text
      → List (CompatGatewayReplayEvent Value)
      → Events Value
      → List (CompatGatewayReplayEvent Value)
  history session_id es m = events_of session_id (append_all es (healthy m)).guarded

  history-cons :
      (session_id : Text) (e : CompatGatewayReplayEvent Value)
      (es : List (CompatGatewayReplayEvent Value)) (m : Events Value)
      → history session_id (e ∷ es) m
        ≡ history session_id es (append_replay_event e (healthy m)).1.guarded
  unfolding append_all
  history-cons session_id e es m =
      ap (λ s. events_of session_id (append_all es s).guarded) (append-healthy e m)

  append-Ascending :
      (session_id : Text) (e : CompatGatewayReplayEvent Value) (m : Events Value)
      → Ascending (events_of session_id m)
      → Ascending (events_of session_id (append_replay_event e (healthy m)).1.guarded)
  append-Ascending session_id e m h =
      rw (events_of-append e m session_id)
        (ground (arith, append_event-Ascending e (events_of session_id m) h))

  history-Ascending :
      (session_id : Text) (es : List (CompatGatewayReplayEvent Value)) (m : Events Value)
      → Ascending (events_of session_id m)
      → Ascending (history session_id es m)
  history-Ascending session_id [] m h = unfold append_all in h
  history-Ascending session_id (e ∷ es) m h = rw (history-cons session_id e es m) (
      history-Ascending session_id es (append_replay_event e (healthy m)).1.guarded
        (append-Ascending session_id e m h))

  history-length :
      (session_id : Text) (es : List (CompatGatewayReplayEvent Value)) (m : Events Value)
      → Ascending (events_of session_id m)
      → length (history session_id es m) ≤ length (events_of session_id m) + length es
  history-length session_id [] m h = unfold append_all in omega arith
  history-length session_id (e ∷ es) m h = rw (history-cons session_id e es m) (
      more (
        history-length session_id es (append_replay_event e (healthy m)).1.guarded
          (append-Ascending session_id e m h)))
    where
      more :
          length (history session_id es (append_replay_event e (healthy m)).1.guarded)
            ≤ length (events_of session_id (append_replay_event e (healthy m)).1.guarded)
              + length es
          → length (history session_id es (append_replay_event e (healthy m)).1.guarded)
            ≤ length (events_of session_id m) + suc (length es)
      more k = ground (
        arith,
        k,
        ap length (events_of-append e m session_id),
        length-append_event e (events_of session_id m) h,
      )

  history-event_at :
      (session_id : Text) (n : ℤ) (es : List (CompatGatewayReplayEvent Value)) (m : Events Value)
      → Ascending (events_of session_id m)
      → event_at n (history session_id es m)
        ≡ latest session_id n (event_at n (events_of session_id m)) es
  unfolding latest
  history-event_at session_id n [] m h = unfold append_all in refl
  history-event_at session_id n (e ∷ es) m h =
      ap (event_at n) (history-cons session_id e es m)
      ∙ history-event_at session_id n es (append_replay_event e (healthy m)).1.guarded
          (append-Ascending session_id e m h)
      ∙ ap (λ o. latest session_id n o es) newest
    where
      newest : event_at n (events_of session_id (append_replay_event e (healthy m)).1.guarded) ≡ (
          if text_eqb e.session_id session_id && eqb_ℤ e.sequence n
          then some e
          else event_at n (events_of session_id m))
      newest =
          ap (event_at n) (events_of-append e m session_id)
          ∙ ground (arith, event_at-append_event n e (events_of session_id m) h)

-- After any history of events appended to an empty store, a client that asks for what came after a
-- sequence number, with a limit of at least the length of the history, is sent for each number above
-- it the last event that the history has for the session and that number, and for no other number
-- anything.
pub list_replay_events_after_complete :
    {Value : Type 0} (es : List (CompatGatewayReplayEvent Value)) (session_id : Text) (n m : ℤ)
    (limit : ℕ)
    → length es ≤ limit
    → (xs : List (CompatGatewayReplayEvent Value)) × ((list_replay_events_after session_id n limit
          (append_all es (healthy []))).0
        ≡ ok xs)
      × (event_at m xs ≡ (if ltb_ℤ n m then latest session_id m none es else none))
unfolding list_replay_events_after get
list_replay_events_after_complete es session_id n m limit h =
    let stored = history session_id es [] in
    (
      events_after n limit stored,
      ap (λ s. (list_replay_events_after session_id n limit s).0) (append_all-healthy es []),
      ap (event_at m) (
            take_all limit (filter (λ e. ltb_ℤ n e.sequence) stored) (
              omega (
                arith,
                length-filter (λ e. ltb_ℤ n e.sequence) stored,
                history-length session_id es [] tt,
              )))
          ∙ event_at-above n m stored
          ∙ ap (λ o. if ltb_ℤ n m then o else none) (history-event_at session_id m es [] tt),
    )

-- After any history of events appended to an empty store, and whatever the limit, what is
-- sent has strictly ascending numbers, all above the one that was asked with, and is no longer than the limit.
pub list_replay_events_after_ordered :
    {Value : Type 0} (es : List (CompatGatewayReplayEvent Value)) (session_id : Text) (n : ℤ)
    (limit : ℕ)
    → (xs : List (CompatGatewayReplayEvent Value)) × ((list_replay_events_after session_id n limit
          (append_all es (healthy []))).0
        ≡ ok xs)
      × Ascending xs
      × Above n xs
      × (length xs ≤ limit)
unfolding list_replay_events_after get
list_replay_events_after_ordered es session_id n limit =
    let stored = history session_id es [] in
    let later = filter (λ e. ltb_ℤ n e.sequence) stored in
    (
      events_after n limit stored,
      ap (λ s. (list_replay_events_after session_id n limit s).0) (append_all-healthy es []),
      take-Ascending limit later
          (filter-Ascending n stored (history-Ascending session_id es [] tt)),
      All-take (λ e. n <ℤ e.sequence) limit later (filter-Above n stored),
      omega (arith, length-take limit later),
    )
