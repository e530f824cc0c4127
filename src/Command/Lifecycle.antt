-- ===== src/Command/Lifecycle.antt =====
-- src/domain/command.rs over src/repositories/command_memory.rs: how an interaction is answered.
use opencord_server.Base.{
  ℕ, suc, ◌&&◌, Bool, true, false, not, nat_eqb, nat_eqb_iff, if◌then◌else◌, List, [], ◌∷◌, all,
  any, Option, Text, Uuid, nat_eq, Result, ok, err, ◌≡◌, refl, arith, ap, ◌∙◌, sym, inl, inr,
  Bool-cases, Option-cases,
}
use mathlib.Core.Path.{subst}
use opencord_server.Base.Fallible.{Result-cases, >>=-Succeeds, ok-injective}
use opencord_server.Base.Action.{healthy, next, pure, ◌>>◌, result-locked, state-locked}
use opencord_server.Base.Map.{get, get-insert}
use opencord_server.Command.{
  CommandInteraction, CommandInteractionCreated, CreateApplicationCommandInput,
  CreateCommandInteractionInput, CreateComponentInteractionInput, CommandError, store_unavailable,
  normalize_interaction_options, normalize_component_custom_id, normalize_component_type,
  generate_interaction_token,
}
use opencord_server.Command.Memory
use opencord_server.Command.Memory.{
  MemoryCommandState, memory_store, mark_deferred_body, mark_responded_body, record_followup_body,
  create_interaction_body, create_command_body, has_status, if_active, respond_found, defer_found,
  as_responded, as_deferred,
}
use opencord_server.Command.Service
use opencord_server.Command.Service.{component_interaction, is_other_space, new_command}
use opencord_server.Command.Marks.{
  is_ok, is_open, respond_found-own, respond_found-other, defer_found-open, follow-same,
}

module _ (hash_interaction_token : Text → Text) where
  -- The calls of the service that change the state.
  pub data Call : Type 0 where
    create : Uuid → Text → Text → CreateCommandInteractionInput → Call
    create_component : Uuid → Text → Text → CreateComponentInteractionInput → Call
    defer : Uuid → Text → Call
    respond : Uuid → Option Uuid → Text → Call
    follow_up : Uuid → Uuid → Call
    add_space_command : Uuid → Text → CreateApplicationCommandInput → Call
    add_global_command : Uuid → Text → CreateApplicationCommandInput → Call

  unfoldable pub run : Call → MemoryCommandState → MemoryCommandState
  run (create id now digits input) s =
      (Service.create_interaction hash_interaction_token memory_store id now digits input
        (healthy s)).1.guarded
  run (create_component id now digits input) s =
      (Service.create_component_interaction hash_interaction_token memory_store id now digits input
        (healthy s)).1.guarded
  run (defer id now) s =
      (Service.mark_interaction_deferred hash_interaction_token memory_store id now
        (healthy s)).1.guarded
  run (respond id message_id now) s =
      (Service.mark_interaction_responded hash_interaction_token memory_store id message_id now
        (healthy s)).1.guarded
  run (follow_up id message_id) s =
      (Service.record_interaction_followup_message hash_interaction_token memory_store id message_id
        (healthy s)).1.guarded
  run (add_space_command id now input) s =
      (Service.create_space_command hash_interaction_token memory_store id now input
        (healthy s)).1.guarded
  run (add_global_command id now input) s =
      (Service.create_global_command hash_interaction_token memory_store id now input
        (healthy s)).1.guarded

  -- The call is one to answer the interaction.
  abbrev pub answers : Uuid → Call → Bool
  answers id (respond other message_id now) = nat_eqb other id
  answers id _ = false

  -- Such a call, and it succeeds.
  abbrev pub has_answered : Uuid → Call → MemoryCommandState → Bool
  has_answered id (respond other message_id now) s =
      nat_eqb other id
      && is_ok
          (Service.mark_interaction_responded hash_interaction_token memory_store other message_id
            now (healthy s)).0
  has_answered id _ s = false

  unfoldable pub count_answered : Uuid → List Call → MemoryCommandState → ℕ
  unfolding run
  count_answered id [] s = 0
  count_answered id (c ∷ cs) s =
      let rest = count_answered id cs (run c s) in if has_answered id c s then suc rest else rest

  -- The fresh id of a creation is another one.
  abbrev pub is_apart : Uuid → Call → Bool
  is_apart id (create other now digits input) = not (nat_eqb other id)
  is_apart id (create_component other now digits input) = not (nat_eqb other id)
  is_apart id _ = true

  component_interaction-id :
      (id : Uuid) (now token : Text) (input : CreateComponentInteractionInput)
      (i : CommandInteraction)
      → component_interaction hash_interaction_token id now token input ≡ ok i
      → i.id ≡ id
  unfolding component_interaction
  component_interaction-id id now token input i h =
      let custom_id = >>=-Succeeds (normalize_component_custom_id input.custom_id) _ h in
      let component_type =
        >>=-Succeeds (normalize_component_type input.component_type) _ custom_id.then_rest in
      ap (λ (j : CommandInteraction). j.id) (sym (ok-injective component_type.then_rest))

  stored_other :
      (id : Uuid) (digits : Text) (s : MemoryCommandState)
      (r : Result CommandError CommandInteraction)
      → ((i : CommandInteraction) → r ≡ ok i → nat_eqb i.id id ≡ false)
      → get
          (next {B = CommandInteractionCreated}
            (λ i.
              Memory.create_interaction i
              >> pure (record { interaction = i; token = generate_interaction_token digits }))
            (r, healthy s)).1.guarded.interactions
          id
        ≡ get s.interactions id
  unfolding Memory.create_interaction create_interaction_body
  stored_other id digits s (err e) apart = refl
  stored_other id digits s (ok i) apart =
      ground (arith, apart i refl, get-insert s.interactions i.id id i)

  create_component-other :
      (other id : Uuid) (now digits : Text) (input : CreateComponentInteractionInput)
      (s : MemoryCommandState)
      → nat_eqb other id ≡ false
      → get (run (create_component other now digits input) s).interactions id
        ≡ get s.interactions id
  unfolding run Service.create_component_interaction
  create_component-other other id now digits input s ne =
      let token = generate_interaction_token digits in
      stored_other id digits s (component_interaction hash_interaction_token other now token input)
        (λ i good. ground (arith, ne, component_interaction-id other now token input i good))

  create_command-other :
      (other id : Uuid) (now digits : Text) (input : CreateCommandInteractionInput)
      (s : MemoryCommandState)
      → nat_eqb other id ≡ false
      → get (run (create other now digits input) s).interactions id ≡ get s.interactions id
  unfolding run Service.create_interaction Service.get_command Memory.get_command
      Memory.create_interaction Service.command_interaction create_interaction_body get
  create_command-other other id now digits input s ne =
      elim (Option-cases (if_active (get s.commands input.command_id))) [
        | inl missing ↦ rw missing refl
        | inr (c, found) ↦ elim (Bool-cases (nat_eqb c.organization_id input.organization_id)) [
          | inr elsewhere ↦ rw (found, elsewhere) refl
          | inl here ↦ elim (Bool-cases (is_other_space input.space_id c.space_id)) [
            | inl other_space ↦ rw (found, here, other_space) refl
            | inr same_space ↦ elim (Result-cases (normalize_interaction_options input.options)) [
              | inl (e, bad) ↦ rw (found, here, same_space, bad) refl
              | inr (options, good) ↦
                  rw (found, here, same_space, good)
                    (ground (
                      arith,
                      ne,
                      get-insert s.interactions other id (
                          Service.command_interaction hash_interaction_token other now
                            (generate_interaction_token digits) c input options),
                    ))
            ]
          ]
        ]
      ]

  add_command-same :
      (id : Uuid) (now : Text) (input : CreateApplicationCommandInput) (s : MemoryCommandState)
      → (Service.create_command hash_interaction_token memory_store id now input
          (healthy s)).1.guarded.interactions
        ≡ s.interactions
  unfolding Service.create_command Memory.create_command create_command_body
  add_command-same id now input s = elim (Result-cases (new_command id now input)) [
    | inl (e, bad) ↦ rw bad refl
    | inr (c, good) ↦ rw good refl
  ]

  run-other :
      (c : Call) (id : Uuid) (s : MemoryCommandState)
      → is_apart id c ≡ true
      → answers id c ≡ false
      → is_open (get (run c s).interactions id) ≡ is_open (get s.interactions id)
  unfolding run Service.mark_interaction_deferred Service.mark_interaction_responded
      Service.record_interaction_followup_message Memory.mark_interaction_deferred
      Memory.mark_interaction_responded Memory.record_interaction_followup_message
      mark_deferred_body mark_responded_body Service.create_space_command
      Service.create_global_command
  run-other (create other now digits input) id s apart miss =
      ap is_open (create_command-other other id now digits input s (ground (arith, apart)))
  run-other (create_component other now digits input) id s apart miss =
      ap is_open (create_component-other other id now digits input s (ground (arith, apart)))
  run-other (defer other now) id s apart miss =
      ap (λ (t : MemoryCommandState). is_open (get t.interactions id))
        (state-locked store_unavailable (mark_deferred_body other now) s)
      ∙ defer_found-open other id now s (get s.interactions other) refl
  run-other (respond other message_id now) id s apart miss =
      ap (λ (t : MemoryCommandState). is_open (get t.interactions id))
        (state-locked store_unavailable (mark_responded_body other message_id now) s)
      ∙ ap is_open (respond_found-other other id message_id now s (get s.interactions other) miss)
  run-other (follow_up other message_id) id s apart miss =
      ap (λ (t : MemoryCommandState). is_open (get t.interactions id))
        (state-locked store_unavailable (record_followup_body other message_id) s)
      ∙ ap (λ m. is_open (get m id)) (follow-same other message_id s)
  run-other (add_space_command other now input) id s apart miss =
      ap (λ m. is_open (get m id)) (add_command-same other now input s)
  run-other (add_global_command other now input) id s apart miss =
      ap (λ m. is_open (get m id)) (add_command-same other now input s)

  respond-answers :
      (id : Uuid) (message_id : Option Uuid) (now : Text) (s : MemoryCommandState)
      → (has_answered id (respond id message_id now) s ≡ is_open (get s.interactions id))
        × (is_open (get (run (respond id message_id now) s).interactions id) ≡ false)
  unfolding run Service.mark_interaction_responded Memory.mark_interaction_responded
      mark_responded_body
  respond-answers id message_id now s =
      let (answered, shut) = respond_found-own id message_id now s (get s.interactions id) refl in
      (
        rw ((nat_eqb_iff id id).1 refl) (
            ap is_ok (result-locked store_unavailable (mark_responded_body id message_id now) s)
            ∙ answered),
        ap (λ (t : MemoryCommandState). is_open (get t.interactions id))
              (state-locked store_unavailable (mark_responded_body id message_id now) s)
            ∙ shut,
      )

  -- The first call to answer an interaction succeeds, if it is open, and shuts it.
  run-answers :
      (c : Call) (id : Uuid) (s : MemoryCommandState)
      → answers id c ≡ true
      → (has_answered id c s ≡ is_open (get s.interactions id))
        × (is_open (get (run c s).interactions id) ≡ false)
  run-answers (respond other message_id now) id s hit =
      subst
        (λ k.
          (has_answered id (respond k message_id now) s ≡ is_open (get s.interactions id))
          × (is_open (get (run (respond k message_id now) s).interactions id) ≡ false))
        (sym ((nat_eqb_iff other id).0 hit)) (respond-answers id message_id now s)
  run-answers (create other now digits input) id s hit = cc
  run-answers (create_component other now digits input) id s hit = cc
  run-answers (defer other now) id s hit = cc
  run-answers (follow_up other message_id) id s hit = cc
  run-answers (add_space_command other now input) id s hit = cc
  run-answers (add_global_command other now input) id s hit = cc

  silent :
      (c : Call) (id : Uuid) (s : MemoryCommandState)
      → answers id c ≡ false
      → has_answered id c s ≡ false
  silent (respond other message_id now) id s miss = rw miss refl
  silent (create other now digits input) id s miss = refl
  silent (create_component other now digits input) id s miss = refl
  silent (defer other now) id s miss = refl
  silent (follow_up other message_id) id s miss = refl
  silent (add_space_command other now input) id s miss = refl
  silent (add_global_command other now input) id s miss = refl

  -- Whatever calls that change the state are made of the service over the in-memory store, in any order,
  -- with a lock that is not poisoned and no interaction created under the same id: if an interaction is
  -- pending or deferred and at least one of the calls is to answer it, exactly one such call succeeds;
  -- otherwise none does.
  pub count_answered_exact :
      (id : Uuid) (cs : List Call) (s : MemoryCommandState)
      → all (is_apart id) cs ≡ true
      → count_answered id cs s
        ≡ (if any (answers id) cs && is_open (get s.interactions id) then 1 else 0)
  unfolding count_answered
  count_answered_exact id [] s apart = refl
  count_answered_exact id (c ∷ cs) s apart = elim (Bool-cases (answers id c)) [
    | inl hit ↦
        let (own, shut) = run-answers c id s hit in
        ground (arith, count_answered_exact id cs (run c s) (ground (arith, apart)), own, shut, hit)
    | inr miss ↦ ground (
      arith,
      count_answered_exact id cs (run c s) (ground (arith, apart)),
      silent c id s miss,
      run-other c id s (ground (arith, apart)) miss,
      miss,
    )
  ]
