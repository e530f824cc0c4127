-- ===== src/Channel/Index.antt =====
-- The tables of channels and slugs of the in-memory store: a slug is used once in a space.
use opencord_server.Base.{
  false, nat_eqb, List, none, some, Uuid, nat_eq, text_eq, pair_eq, pair_eqb_iff, beq_refl, err,
  ◌≡◌, refl, arith, ◌∙◌, ap, Bool-cases, Option-cases, inl, inr,
}
use opencord_server.Base.Map.{get, insert, remove, get-insert, get-remove}
use opencord_server.Base.Member.{Distinct, insert-Distinct, remove-Distinct}
use opencord_server.Channel.{Channel, slug_already_exists}
use opencord_server.Channel.Memory.{
  MemoryChannelState, slug_key, taken_by_other, empty_state, create_channel_body,
  update_channel_body, archive_channel_body,
}
use opencord_server.Channel.Commands.{Command, run_all, Keeps, run_all-keeps}

pub record IsIndexed (s : MemoryChannelState) : Type 0 where
  pub distinct : Distinct s.channels_by_id
  pub own_id : (i : Uuid) (c : Channel) → get s.channels_by_id i ≡ some c → c.id ≡ i
  pub indexed :
      (i : Uuid) (c : Channel)
      → get s.channels_by_id i ≡ some c
      → get s.channel_id_by_space_slug (slug_key c) ≡ some i

create_channel-IsIndexed :
    (c : Channel) (s : MemoryChannelState) → IsIndexed s → IsIndexed (create_channel_body c s).1
unfolding create_channel_body
create_channel-IsIndexed c s inv =
    elim (Option-cases (get s.channel_id_by_space_slug (slug_key c))) [
      | inr (i, taken) ↦ rw taken inv
      | inl free ↦ rw free (record {
        distinct = insert-Distinct s.channels_by_id c.id c inv.distinct;
        own_id = λ i x h. ground (arith, get-insert s.channels_by_id c.id i c, inv.own_id i x);
        indexed = λ i x h. ground (
          arith,
          get-insert s.channels_by_id c.id i c,
          get-insert s.channel_id_by_space_slug (slug_key c) (slug_key x) c.id,
          inv.indexed i x,
          pair_eqb_iff (slug_key c) (slug_key x),
        );
      })
    ]

update_channel-indexed :
    (c : Channel) (s : MemoryChannelState) (old : Channel)
    → IsIndexed s
    → get s.channels_by_id c.id ≡ some old
    → taken_by_other c.id (get s.channel_id_by_space_slug (slug_key c)) ≡ false
    → (i : Uuid) (x : Channel) → get (insert s.channels_by_id c.id c) i ≡ some x
    → get (insert (remove s.channel_id_by_space_slug (slug_key old)) (slug_key c) c.id) (slug_key x)
      ≡ some i
update_channel-indexed c s old inv found free i x h = elim (Bool-cases (nat_eqb c.id i)) [
  | inl same ↦ ground (
    arith,
    same,
    get-insert s.channels_by_id c.id i c,
    get-insert (remove s.channel_id_by_space_slug (slug_key old)) (slug_key c) (slug_key x) c.id,
    pair_eqb_iff (slug_key c) (slug_key x),
  )
  | inr other ↦ ground (
    arith,
    other,
    get-insert s.channels_by_id c.id i c,
    get-insert (remove s.channel_id_by_space_slug (slug_key old)) (slug_key c) (slug_key x) c.id,
    get-remove s.channel_id_by_space_slug (slug_key old) (slug_key x),
    pair_eqb_iff (slug_key c) (slug_key x),
    pair_eqb_iff (slug_key old) (slug_key x),
    inv.indexed c.id old found,
    inv.indexed i x,
  )
]

update_channel-IsIndexed :
    (c : Channel) (s : MemoryChannelState) → IsIndexed s → IsIndexed (update_channel_body c s).1
unfolding update_channel_body
update_channel-IsIndexed c s inv = elim (Option-cases (get s.channels_by_id c.id)) [
  | inl missing ↦ rw (missing, update_channel_body) inv
  | inr (old, found) ↦
      elim (Bool-cases (taken_by_other c.id (get s.channel_id_by_space_slug (slug_key c)))) [
        | inl taken ↦ rw (found, update_channel_body, taken) inv
        | inr free ↦
            rw (found, update_channel_body, free)
              (record {
                distinct = insert-Distinct s.channels_by_id c.id c inv.distinct;
                own_id =
                    λ i x h. ground (arith, get-insert s.channels_by_id c.id i c, inv.own_id i x);
                indexed = λ i x h. update_channel-indexed c s old inv found free i x h;
              })
      ]
]

archive_channel-IsIndexed :
    (id : Uuid) (s : MemoryChannelState) → IsIndexed s → IsIndexed (archive_channel_body id s).1
unfolding archive_channel_body
archive_channel-IsIndexed id s inv = elim (Option-cases (get s.channels_by_id id)) [
  | inl missing ↦ rw missing inv
  | inr (c, found) ↦ rw found (record {
    distinct = remove-Distinct s.channels_by_id id inv.distinct;
    own_id = λ i x h. ground (arith, get-remove s.channels_by_id id i, inv.own_id i x);
    indexed = λ i x h. ground (arith, get-remove s.channels_by_id id i, inv.indexed i x);
  })
]

empty_state-IsIndexed : IsIndexed empty_state
unfolding get
empty_state-IsIndexed = record { distinct = tt; own_id = λ i x h. cc; indexed = λ i x h. cc }

pub IsIndexed-Keeps : Keeps IsIndexed
IsIndexed-Keeps = record {
  by_create = create_channel-IsIndexed;
  by_update = update_channel-IsIndexed;
  by_archive = archive_channel-IsIndexed;
}

pub run_all-IsIndexed : (cs : List Command) → IsIndexed (run_all cs empty_state)
run_all-IsIndexed cs = run_all-keeps IsIndexed IsIndexed-Keeps cs empty_state empty_state-IsIndexed

-- After any calls of the service on an empty in-memory store, two channels of one space with the
-- same slug are the same channel, and every channel is stored under its own id.
pub run_all-channel_slug_unique :
    (cs : List Command) (i j : Uuid) (a b : Channel)
    → let s = run_all cs empty_state in
      get s.channels_by_id i ≡ some a
      → get s.channels_by_id j ≡ some b
      → a.space_id ≡ b.space_id
      → a.slug ≡ b.slug
      → (i ≡ j) × (a.id ≡ i)
run_all-channel_slug_unique cs i j a b ha hb space slug =
    let inv = run_all-IsIndexed cs in
    ground (arith, inv.indexed i a ha, inv.indexed j b hb, inv.own_id i a ha, space, slug)

-- After any calls of the service on an empty in-memory store, a channel that is archived keeps its
-- slug: it is gone from the table of channels, and creating a channel with its slug in its space is
-- refused and changes nothing.
pub archive_channel-create_channel :
    (cs : List Command) (i : Uuid) (old c : Channel)
    → let s = run_all cs empty_state in
      get s.channels_by_id i ≡ some old
      → slug_key c ≡ slug_key old
      → let archived = (archive_channel_body i s).1 in
        (get archived.channels_by_id i ≡ none)
        × (create_channel_body c archived ≡ (err slug_already_exists, archived))
unfolding create_channel_body archive_channel_body
archive_channel-create_channel cs i old c found same =
    let s = run_all cs empty_state in
    let inv = run_all-IsIndexed cs in
    let taken : get s.channel_id_by_space_slug (slug_key c) ≡ some i =
      ap (get s.channel_id_by_space_slug) same ∙ inv.indexed i old found in
    rw found (ground (arith, get-remove s.channels_by_id i i, beq_refl i), rw taken refl)
