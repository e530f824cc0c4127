-- ===== src/Command/Marks.antt =====
-- src/repositories/command_memory.rs: what the calls on interactions do to one interaction.
use opencord_server.Base.{
  ◌||◌, Bool, true, false, nat_eqb, nat_eqb_iff, Option, none, some, Text, Uuid, text, text_eqb,
  nat_eq, Result, ok, err, ◌≡◌, refl, arith, sym, inl, inr, Bool-cases,
}
use opencord_server.Base.Map.{get, get-insert, contains_key}
use opencord_server.Command.{CommandInteraction}
use opencord_server.Command.Memory.{
  MemoryCommandState, record_followup_body, create_interaction_body, has_status, respond_found,
  defer_found, as_responded, as_deferred,
}

abbrev pub is_ok : {E A : Type 0} → Result E A → Bool
is_ok (ok _) = true
is_ok (err _) = false

-- There is an interaction, and it is not answered yet.
abbrev pub is_open : Option CommandInteraction → Bool
is_open none = false
is_open (some i) = has_status (text "pending") i || has_status (text "deferred") i

pub respond_found-own :
    (id : Uuid) (message_id : Option Uuid) (now : Text) (s : MemoryCommandState)
    (o : Option CommandInteraction)
    → get s.interactions id ≡ o
    → (is_ok (respond_found id message_id now s o).0 ≡ is_open o)
      × (is_open (get (respond_found id message_id now s o).1.interactions id) ≡ false)
unfolding text_eqb
respond_found-own id message_id now s none e = (refl, rw e refl)
respond_found-own id message_id now s (some i) e =
    elim (Bool-cases (has_status (text "pending") i)) [
      | inl pending ↦ rw pending (
        refl,
        rw
            (
              get-insert s.interactions id id (as_responded message_id now i),
              (nat_eqb_iff id id).1 refl,
            )
            refl,
      )
      | inr other ↦ elim (Bool-cases (has_status (text "deferred") i)) [
        | inl deferred ↦
            rw (other, deferred)
              (
                refl,
                rw
                    (
                      get-insert s.interactions id id (as_responded message_id now i),
                      (nat_eqb_iff id id).1 refl,
                    )
                    refl,
              )
        | inr answered ↦ rw (other, answered) (refl, rw e (rw (other, answered) refl))
      ]
    ]

pub respond_found-other :
    (other id : Uuid) (message_id : Option Uuid) (now : Text) (s : MemoryCommandState)
    (o : Option CommandInteraction)
    → nat_eqb other id ≡ false
    → get (respond_found other message_id now s o).1.interactions id ≡ get s.interactions id
respond_found-other other id message_id now s none ne = refl
respond_found-other other id message_id now s (some i) ne =
    ground (arith, get-insert s.interactions other id (as_responded message_id now i), ne)

pub defer_found-open :
    (other id : Uuid) (now : Text) (s : MemoryCommandState) (o : Option CommandInteraction)
    → get s.interactions other ≡ o
    → is_open (get (defer_found other now s o).1.interactions id) ≡ is_open (get s.interactions id)
unfolding text_eqb
defer_found-open other id now s none e = refl
defer_found-open other id now s (some i) e = elim (Bool-cases (has_status (text "pending") i)) [
  | inr moved_on ↦ rw moved_on refl
  | inl pending ↦ elim (Bool-cases (nat_eqb other id)) [
    | inr apart ↦ rw (pending, get-insert s.interactions other id (as_deferred now i), apart) refl
    | inl same ↦
        rw
          (
            pending,
            get-insert s.interactions other id (as_deferred now i),
            same,
            sym ((nat_eqb_iff other id).0 same),
          )
          (rw (e, pending) refl)
  ]
]

pub follow-same :
    (other message_id : Uuid) (s : MemoryCommandState)
    → (record_followup_body other message_id s).1.interactions ≡ s.interactions
unfolding record_followup_body
follow-same other message_id s = elim (Bool-cases (contains_key s.interactions other)) [
  | inl there ↦ rw there refl
  | inr missing ↦ rw missing refl
]

pub create-other :
    (i : CommandInteraction) (id : Uuid) (s : MemoryCommandState)
    → nat_eqb i.id id ≡ false
    → get (create_interaction_body i s).1.interactions id ≡ get s.interactions id
unfolding create_interaction_body
create-other i id s ne = ground (arith, get-insert s.interactions i.id id i, ne)
