-- ===== src/Gateway/Replay.antt =====
-- The events kept for replay: a list that is pushed to and sorted is an ordered map from sequence
-- numbers to events, and what is replayed is the part of it above a sequence number.
use opencord_server.Base.{
  ℕ, zero, suc, ◌≤◌, ◌+◌, All-filter, All-take, true, false, if◌then◌else◌, List, [], ◌∷◌, ◌++◌,
  filter, any, take, length, sort_by, insert_sorted, Option, none, some, find, All, ◌≡◌, refl,
  arith, ◌∙◌, ap, inl, inr, Bool-cases,
}
use opencord_server.Base.Int.{ℤ, ltb_ℤ, eqb_ℤ, eqb_ℤ_iff, ◌<ℤ◌, ◌≤ℤ◌}
use opencord_server.Gateway.{CompatGatewayReplayEvent, append_event, replace_first, by_sequence}

module _ {Value : Type 0} where
  -- Every event of the list is above a sequence number.
  abbrev pub Above : ℤ → List (CompatGatewayReplayEvent Value) → Type 0
  Above n = All (λ e. n <ℤ e.sequence)

  -- Strictly ascending in the sequence number.
  abbrev pub Ascending : List (CompatGatewayReplayEvent Value) → Type 0
  Ascending [] = Unit
  Ascending (x ∷ xs) = Above x.sequence xs × Ascending xs

  -- Insertion into an ordered map: in place of the event of that number, or where it belongs.
  place :
      CompatGatewayReplayEvent Value
      → List (CompatGatewayReplayEvent Value)
      → List (CompatGatewayReplayEvent Value)
  place event [] = event ∷ []
  place event (x ∷ xs) =
      if eqb_ℤ x.sequence event.sequence
      then event ∷ xs
      else if ltb_ℤ event.sequence x.sequence
      then event ∷ x ∷ xs
      else x ∷ place event xs

  Above-place :
      (n : ℤ) (event : CompatGatewayReplayEvent Value) (xs : List (CompatGatewayReplayEvent Value))
      → n <ℤ event.sequence
      → Above n xs
      → Above n (place event xs)
  unfolding place
  Above-place n event [] h k = (h, tt)
  Above-place n event (x ∷ xs) h (k, ks) = ground (arith, Above-place n event xs h ks)

  Above-trans :
      (m n : ℤ) (xs : List (CompatGatewayReplayEvent Value)) → m <ℤ n → Above n xs → Above m xs
  Above-trans m n [] h k = tt
  Above-trans m n (x ∷ xs) h (k, ks) = (omega arith, Above-trans m n xs h ks)

  place-Ascending :
      (event : CompatGatewayReplayEvent Value) (xs : List (CompatGatewayReplayEvent Value))
      → Ascending xs
      → Ascending (place event xs)
  unfolding place
  place-Ascending event [] h = (tt, tt)
  place-Ascending event (x ∷ xs) (k, h) = ground (
    arith,
    place-Ascending event xs h,
    Above-place x.sequence event xs,
    Above-trans event.sequence x.sequence xs,
    eqb_ℤ_iff x.sequence event.sequence,
  )

  -- At most one event has a sequence number of an ascending list, so replacing the first is placing.
  replace_first-place :
      (event : CompatGatewayReplayEvent Value) (xs : List (CompatGatewayReplayEvent Value))
      → Ascending xs
      → any (λ x. eqb_ℤ x.sequence event.sequence) xs ≡ true
      → replace_first event xs ≡ place event xs
  unfolding place replace_first
  replace_first-place event [] h k = cc
  replace_first-place event (x ∷ xs) (a, h) k =
      ground (arith, replace_first-place event xs h, none_below x.sequence event.sequence xs a)
    where
      none_below :
          (n m : ℤ) (ys : List (CompatGatewayReplayEvent Value))
          → Above n ys
          → ltb_ℤ m n ≡ true
          → any (λ x. eqb_ℤ x.sequence m) ys ≡ false
      none_below n m [] q r = refl
      none_below n m (y ∷ ys) (q, qs) r = ground (arith, none_below n m ys qs r)

  -- Pushing at the end and sorting is placing, if the number is new.
  Above-insert_sorted :
      (x : CompatGatewayReplayEvent Value) (xs : List (CompatGatewayReplayEvent Value))
      → Above x.sequence xs
      → insert_sorted by_sequence x xs ≡ x ∷ xs
  unfolding insert_sorted
  Above-insert_sorted x [] h = refl
  Above-insert_sorted x (y ∷ ys) (h, hs) = ground arith

  insert_sorted-place :
      (x event : CompatGatewayReplayEvent Value) (xs : List (CompatGatewayReplayEvent Value))
      → Ascending (x ∷ xs)
      → eqb_ℤ x.sequence event.sequence ≡ false
      → insert_sorted by_sequence x (place event xs) ≡ place event (x ∷ xs)
  unfolding insert_sorted place
  insert_sorted-place x event [] h e = ground (arith, eqb_ℤ_iff x.sequence event.sequence)
  insert_sorted-place x event (y ∷ ys) ((a, as'), h) e =
      ground (arith, eqb_ℤ_iff x.sequence event.sequence, eqb_ℤ_iff y.sequence event.sequence)

  sort_by-place :
      (event : CompatGatewayReplayEvent Value) (xs : List (CompatGatewayReplayEvent Value))
      → Ascending xs
      → any (λ x. eqb_ℤ x.sequence event.sequence) xs ≡ false
      → sort_by by_sequence (xs ++ event ∷ []) ≡ place event xs
  unfolding sort_by
  sort_by-place event [] h k = unfold insert_sorted place in refl
  sort_by-place event (x ∷ xs) (a, h) k = elim (Bool-cases (eqb_ℤ x.sequence event.sequence)) [
    | inl same ↦ cc (rw same at k)
    | inr other ↦
        ap (insert_sorted by_sequence x) (sort_by-place event xs h (rw other at k))
        ∙ insert_sorted-place x event xs (a, h) other
  ]

  append_event-place :
      (event : CompatGatewayReplayEvent Value) (xs : List (CompatGatewayReplayEvent Value))
      → Ascending xs
      → append_event event xs ≡ place event xs
  unfolding append_event
  append_event-place event xs h =
      elim (Bool-cases (any (λ x. eqb_ℤ x.sequence event.sequence) xs)) [
        | inl old ↦ rw old (replace_first-place event xs h old)
        | inr new ↦ rw new (sort_by-place event xs h new)
      ]

-- Appending an event keeps the stored events strictly ascending in their sequence numbers.
pub append_event-Ascending :
    {Value : Type 0} (event : CompatGatewayReplayEvent Value)
    (xs : List (CompatGatewayReplayEvent Value))
    → Ascending xs
    → Ascending (append_event event xs)
append_event-Ascending event xs h = rw (append_event-place event xs h) (place-Ascending event xs h)

-- The event of a sequence number.
abbrev pub event_at :
    {Value : Type 0}
    → ℤ
    → List (CompatGatewayReplayEvent Value)
    → Option (CompatGatewayReplayEvent Value)
event_at n = find (λ e. eqb_ℤ e.sequence n)

module _ {Value : Type 0} where
  find_below :
      (n m : ℤ) (xs : List (CompatGatewayReplayEvent Value))
      → Above m xs
      → n ≤ℤ m
      → event_at n xs ≡ none
  find_below n m [] h k = refl
  find_below n m (x ∷ xs) (h, hs) k = ground (arith, find_below n m xs hs k)

  event_at-place :
      (n : ℤ) (event : CompatGatewayReplayEvent Value) (xs : List (CompatGatewayReplayEvent Value))
      → Ascending xs
      → event_at n (place event xs) ≡ (if eqb_ℤ event.sequence n then some event else event_at n xs)
  unfolding place
  event_at-place n event [] h = refl
  event_at-place n event (x ∷ xs) (a, h) = ground (
    arith,
    event_at-place n event xs h,
    eqb_ℤ_iff x.sequence event.sequence,
    eqb_ℤ_iff event.sequence n,
    eqb_ℤ_iff x.sequence n,
  )

  pub event_at-append_event :
      (n : ℤ) (event : CompatGatewayReplayEvent Value) (xs : List (CompatGatewayReplayEvent Value))
      → Ascending xs
      → event_at n (append_event event xs)
        ≡ (if eqb_ℤ event.sequence n then some event else event_at n xs)
  event_at-append_event n event xs h =
      rw (append_event-place event xs h) (event_at-place n event xs h)

  length-place :
      (event : CompatGatewayReplayEvent Value) (xs : List (CompatGatewayReplayEvent Value))
      → length (place event xs) ≤ length xs + 1
  unfolding place
  length-place event [] = omega arith
  length-place event (x ∷ xs) = ground (arith, length-place event xs)

  pub length-append_event :
      (event : CompatGatewayReplayEvent Value) (xs : List (CompatGatewayReplayEvent Value))
      → Ascending xs
      → length (append_event event xs) ≤ length xs + 1
  length-append_event event xs h = rw (append_event-place event xs h) (length-place event xs)

  -- What is replayed.
  pub event_at-above :
      (n m : ℤ) (xs : List (CompatGatewayReplayEvent Value))
      → event_at m (filter (λ e. ltb_ℤ n e.sequence) xs)
        ≡ (if ltb_ℤ n m then event_at m xs else none)
  event_at-above n m [] = ground arith
  event_at-above n m (x ∷ xs) = ground (arith, event_at-above n m xs, eqb_ℤ_iff x.sequence m)

  pub filter-Above :
      (n : ℤ) (xs : List (CompatGatewayReplayEvent Value))
      → Above n (filter (λ e. ltb_ℤ n e.sequence) xs)
  filter-Above n [] = tt
  filter-Above n (x ∷ xs) = ground (arith, filter-Above n xs)

  pub filter-Ascending :
      (n : ℤ) (xs : List (CompatGatewayReplayEvent Value))
      → Ascending xs
      → Ascending (filter (λ e. ltb_ℤ n e.sequence) xs)
  filter-Ascending n [] h = tt
  filter-Ascending n (x ∷ xs) (a, h) = ground (
    arith,
    filter-Ascending n xs h,
    All-filter (λ e. x.sequence <ℤ e.sequence) (λ e. ltb_ℤ n e.sequence) xs a,
  )

  pub take-Ascending :
      (limit : ℕ) (xs : List (CompatGatewayReplayEvent Value))
      → Ascending xs
      → Ascending (take limit xs)
  take-Ascending zero xs h = tt
  take-Ascending (suc limit) [] h = tt
  take-Ascending (suc limit) (x ∷ xs) (a, h) =
      (All-take (λ e. x.sequence <ℤ e.sequence) limit xs a, take-Ascending limit xs h)
