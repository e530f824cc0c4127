-- ===== src/Message/Purge.antt =====
-- What a purge takes out of the in-memory message store, and what a channel lists.
use opencord_server.Base.{
  true, false, ◌∙◌, ◌⊎◌, inl, inr, Bool-cases, text_ltb, List, none, some, Option, Text, Uuid,
  nat_eq, ok, ◌≡◌, refl, arith, ◌↔◌, ap, length, filter, map,
}
use opencord_server.Base.Time.{Chrono}
use opencord_server.Base.Map.{get, values}
use opencord_server.Base.Member.{
  ◌∈◌, mem-filter_iff, mem-sort_by_iff, Sorted, IsOrder, sort_by-Sorted,
}
use opencord_server.Base.Keyed.{get-remove_where, filter-remove_where, mem-values_iff}
use opencord_server.Message.{Message}
use opencord_server.Message.Memory.{
  empty_state, purge_body, is_expired, before, deleted_earlier, expired_ids, list_for_channel_body,
  in_channel, id_leb,
}
use opencord_server.Message.Commands.{Command, run_all, run_all-IsStored}

-- There is a time and a cut-off, and the time is before the cut-off.
abbrev pub IsBefore : Option Text → Option Text → Type 0
IsBefore (some time) (some cutoff) = text_ltb time cutoff ≡ true
IsBefore _ _ = ⊥

-- What a purge of an organization is to take out: its messages that were created before the one cut-off
-- or deleted before the other.
abbrev pub Expires : Uuid → Option Text → Option Text → Message → Type 0
Expires organization_id created deleted m =
    (m.organization_id ≡ organization_id)
    × (IsBefore (some m.created_at) created ⊎ IsBefore m.deleted_at deleted)

before-IsBefore :
    (cutoff : Option Text) (time : Text) → (before cutoff time ≡ true) ↔ IsBefore (some time) cutoff
before-IsBefore none time = ground arith
before-IsBefore (some cutoff) time = (λ h. h, λ h. h)

deleted_earlier-IsBefore :
    (cutoff time : Option Text) → (deleted_earlier cutoff time ≡ true) ↔ IsBefore time cutoff
deleted_earlier-IsBefore cutoff none = ground arith
deleted_earlier-IsBefore cutoff (some time) = before-IsBefore cutoff time

is_expired-Expires :
    (organization_id : Uuid) (created deleted : Option Text) (m : Message)
    → (is_expired organization_id created deleted m ≡ true)
      ↔ Expires organization_id created deleted m
unfolding is_expired
is_expired-Expires organization_id created deleted m =
    let (forth, back) = before-IsBefore created m.created_at in
    let (forth', back') = deleted_earlier-IsBefore deleted m.deleted_at in
    (
      λ h. (
        ground (arith, h),
        elim (Bool-cases (before created m.created_at)) [
          | inl early ↦ inl (forth early)
          | inr late ↦ inr (forth' (ground (arith, h, late)))
        ],
      ),
      λ h. elim h.1 [
        | inl early ↦ ground (arith, h.0, back early)
        | inr early ↦ ground (arith, h.0, back' early)
      ],
    )

-- After any calls of the service and any purges on an empty in-memory store: a purge takes out the
-- messages of the organization that were created before the one cut-off or deleted before the other,
-- leaves every other message as it is, and stores nothing new; a dry run changes nothing and reports the
-- number that the purge reports; and the same purge, run again, finds nothing.
pub purge_exact :
    (chrono : Chrono) (cs : List (Command chrono)) (organization_id : Uuid)
    (created deleted : Option Text)
    → let s = run_all chrono cs empty_state in
      let purged = purge_body organization_id created deleted false s in
      ((id : Uuid) (m : Message)
        → get s.messages_by_id id ≡ some m
        → Expires organization_id created deleted m
        → get purged.1.messages_by_id id ≡ none)
      × ((id : Uuid) (m : Message)
          → get s.messages_by_id id ≡ some m
          → ¬ Expires organization_id created deleted m
          → get purged.1.messages_by_id id ≡ some m)
      × ((id : Uuid) → get s.messages_by_id id ≡ none → get purged.1.messages_by_id id ≡ none)
      × (purge_body organization_id created deleted true s ≡ (purged.0, s))
      × ((purge_body organization_id created deleted false purged.1).0 ≡ ok 0)
unfolding purge_body expired_ids
purge_exact chrono cs organization_id created deleted =
    let s = run_all chrono cs empty_state in
    let inv = run_all-IsStored chrono cs in
    let id_of = λ (m : Message). m.id in
    let expired = is_expired organization_id created deleted in
    let left = λ (id : Uuid). get-remove_where id_of expired s.messages_by_id id inv in
    (
      (λ id m there gone.
          left id ∙ rw (there, (is_expired-Expires organization_id created deleted m).1 gone) refl),
      (λ id m there kept. elim (Bool-cases (expired m)) [
        | inl gone ↦ absurd (kept ((is_expired-Expires organization_id created deleted m).0 gone))
        | inr stays ↦ left id ∙ rw (there, stays) refl
      ]),
      (λ id free. left id ∙ rw free refl),
      refl,
      ap (λ ms. ok (length (map id_of ms)))
          (filter-remove_where id_of expired s.messages_by_id inv),
    )

id_leb-IsOrder : IsOrder id_leb
id_leb-IsOrder = record { total = λ x y h. ground arith; trans = λ x y z h k. ground arith }

-- After any calls of the service and any purges on an empty in-memory store, a channel lists the
-- stored messages of that channel that are not deleted, all of them and no other, in the order of
-- their ids.
pub list_for_channel_exact :
    (chrono : Chrono) (cs : List (Command chrono)) (channel_id : Uuid) (m : Message)
    → let s = run_all chrono cs empty_state in
      (m ∈ list_for_channel_body channel_id s ↔ (
        (get s.messages_by_id m.id ≡ some m) × (m.channel_id ≡ channel_id) × (m.deleted_at ≡ none)))
      × Sorted id_leb (list_for_channel_body channel_id s)
unfolding list_for_channel_body
list_for_channel_exact chrono cs channel_id m =
    let s = run_all chrono cs empty_state in
    let inv = run_all-IsStored chrono cs in
    let stored = mem-values_iff (λ (m : Message). m.id) s.messages_by_id m inv in
    let kept = mem-filter_iff (in_channel channel_id) m (values s.messages_by_id) in
    let placed =
      mem-sort_by_iff id_leb m (filter (in_channel channel_id) (values s.messages_by_id)) in
    (
      (
        λ h. let (among, here) = kept.0 (placed.0 h) in ground (arith, stored.0 among, here),
        λ h. placed.1 (kept.1 (stored.1 h.0, ground (arith, h.1, h.2))),
      ),
      sort_by-Sorted id_leb id_leb-IsOrder _,
    )
