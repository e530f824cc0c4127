-- ===== src/Command/Callback.antt =====
-- src/domain/command.rs over src/repositories/command_memory.rs: the token of an interaction.
use opencord_server.Base.{
  true, false, not, nat_eqb, if◌then◌else◌, Option, none, some, Text, Uuid, text, text_eqb,
  text_eqb_iff, nat_eq, starts_with, Result, ok, err, ok_or, ◌≡◌, refl, arith, ap, ◌∙◌, inl, inr,
  Bool-cases, Option-cases,
}
use mathlib.Core.Path.{subst}
use opencord_server.Base.Fallible.{Result-cases, ok-injective}
use opencord_server.Base.Action.{Action, healthy, next, pure}
use opencord_server.Base.Map.{get, get-insert}
use opencord_server.Command.{
  CommandInteraction, CommandInteractionCreated, CreateCommandInteractionInput, CommandError,
  unauthorized, already_responded, normalize_interaction_options, generate_interaction_token,
  token_prefix,
}
use opencord_server.Command.Memory
use opencord_server.Command.Memory.{
  MemoryCommandState, State, memory_store, create_interaction_body, if_active, if_hash, has_hash,
}
use opencord_server.Command.Service
use opencord_server.Command.Service.{command_interaction, is_other_space}

module _ (hash_interaction_token : Text → Text) where
  -- What the callback makes of what is stored under the id.
  abbrev judged : Option CommandInteraction → Text → Result CommandError CommandInteraction
  judged none token = err unauthorized
  judged (some i) token =
      if has_hash (hash_interaction_token token) i
      then (if not (text_eqb i.status (text "pending")) then err already_responded else ok i)
      else err unauthorized

  callback-judged :
      (id : Uuid) (token : Text) (s : MemoryCommandState)
      → starts_with token token_prefix ≡ true
      → Service.interaction_for_callback hash_interaction_token memory_store id token (healthy s)
        ≡ (judged (get s.interactions id) token, healthy s)
  unfolding Service.interaction_for_callback Memory.get_interaction_by_token_hash
  callback-judged id token s starts = rw starts (found (get s.interactions id))
    where
      check : CommandInteraction → Action State CommandError CommandInteraction
      check i =
          if not (text_eqb i.status (text "pending"))
          then (λ t. (err already_responded, t))
          else pure i

      found :
          (o : Option CommandInteraction)
          → next check (ok_or unauthorized (if_hash (hash_interaction_token token) o), healthy s)
            ≡ (judged o token, healthy s)
      found none = refl
      found (some i) = ground arith

  judged-own :
      (i : CommandInteraction) (token : Text)
      → i.token_hash ≡ hash_interaction_token token
      → i.status ≡ text "pending"
      → judged (some i) token ≡ ok i
  judged-own i token hashed pending =
      rw
        (
          (text_eqb_iff i.token_hash (hash_interaction_token token)).1 hashed,
          (text_eqb_iff i.status (text "pending")).1 pending,
        )
        refl

  callback-refused :
      (id : Uuid) (token : Text) (i : CommandInteraction) (s : MemoryCommandState)
      → get s.interactions id ≡ some i
      → text_eqb i.token_hash (hash_interaction_token token) ≡ false
      → Service.interaction_for_callback hash_interaction_token memory_store id token (healthy s)
        ≡ (err unauthorized, healthy s)
  callback-refused id token i s found other = elim (Bool-cases (starts_with token token_prefix)) [
    | inl starts ↦
        callback-judged id token s starts
        ∙ ap (λ o. (judged o token, healthy s)) found
        ∙ rw other refl
    | inr unlike ↦ unfold Service.interaction_for_callback in rw unlike refl
  ]

  -- What is known of a creation that succeeds.
  record WasCreated (id : Uuid) (digits : Text) (s : MemoryCommandState)
      (created : CommandInteractionCreated) (t : State) : Type 0 where
    token : created.token ≡ generate_interaction_token digits
    own_id : created.interaction.id ≡ id
    hashed : created.interaction.token_hash ≡ hash_interaction_token created.token
    pending : created.interaction.status ≡ text "pending"
    stored : t ≡ healthy (create_interaction_body created.interaction s).1

  exactly :
      (id : Uuid) (digits : Text) (s : MemoryCommandState) (i : CommandInteraction)
      (created : CommandInteractionCreated) (t : State)
      → i.id ≡ id
      → i.token_hash ≡ hash_interaction_token (generate_interaction_token digits)
      → i.status ≡ text "pending"
      → ◌≡◌ {A = Result CommandError CommandInteractionCreated × State}
          (
            ok (record { interaction = i; token = generate_interaction_token digits }),
            healthy (create_interaction_body i s).1,
          )
          (ok created, t)
      → WasCreated id digits s created t
  exactly id digits s i created t own hashed pending h =
      subst (WasCreated id digits s created) (ap (λ r. r.1) h) (
        subst (λ k. WasCreated id digits s k (healthy (create_interaction_body i s).1))
          (ok-injective (ap (λ r. r.0) h))
          (record {
            token = refl;
            own_id = own;
            hashed = hashed;
            pending = pending;
            stored = refl;
          }))

  create_interaction-WasCreated :
      (id : Uuid) (now digits : Text) (input : CreateCommandInteractionInput)
      (s : MemoryCommandState) (created : CommandInteractionCreated) (t : State)
      → Service.create_interaction hash_interaction_token memory_store id now digits input
          (healthy s)
        ≡ (ok created, t)
      → WasCreated id digits s created t
  unfolding Service.create_interaction Service.get_command Memory.get_command
      Memory.create_interaction create_interaction_body command_interaction get
  create_interaction-WasCreated id now digits input s created t h =
      elim (Option-cases (if_active (get s.commands input.command_id))) [
        | inl missing ↦ cc (rw missing at h)
        | inr (c, found) ↦ elim (Bool-cases (nat_eqb c.organization_id input.organization_id)) [
          | inr elsewhere ↦ cc (rw (found, elsewhere) at h)
          | inl here ↦ elim (Bool-cases (is_other_space input.space_id c.space_id)) [
            | inl other_space ↦ cc (rw (found, here, other_space) at h)
            | inr same_space ↦ elim (Result-cases (normalize_interaction_options input.options)) [
              | inl (e, bad) ↦ cc (rw (found, here, same_space, bad) at h)
              | inr (options, good) ↦
                  let token = generate_interaction_token digits in
                  let i = command_interaction hash_interaction_token id now token c input options in
                  exactly id digits s i created t refl refl refl
                    (rw (found, here, same_space, good) at h)
            ]
          ]
        ]
      ]

  starts_with-token :
      (digits : Text) → starts_with (generate_interaction_token digits) token_prefix ≡ true
  unfolding generate_interaction_token starts_with
  starts_with-token digits = refl

  -- If an interaction with a command is created through the service over the in-memory store, with a lock
  -- that is not poisoned, then the callback under its id and with the token that was handed out gives
  -- that very interaction and changes nothing; and with any token of another hash it is unauthorized.
  pub interaction_for_callback-create_interaction :
      (id : Uuid) (now digits : Text) (input : CreateCommandInteractionInput)
      (s : MemoryCommandState) (created : CommandInteractionCreated) (t : State)
      → Service.create_interaction hash_interaction_token memory_store id now digits input
          (healthy s)
        ≡ (ok created, t)
      → (Service.interaction_for_callback hash_interaction_token memory_store id created.token t
          ≡ (ok created.interaction, t))
        × ((token : Text)
            → text_eqb (hash_interaction_token created.token) (hash_interaction_token token) ≡ false
            → Service.interaction_for_callback hash_interaction_token memory_store id token t
              ≡ (err unauthorized, t))
  unfolding create_interaction_body
  interaction_for_callback-create_interaction id now digits input s created t h =
      let known = create_interaction-WasCreated id now digits input s created t h in
      let i = created.interaction in
      let s' = (create_interaction_body i s).1 in
      let found : get s'.interactions id ≡ some i =
        ground (arith, known.own_id, get-insert s.interactions i.id id i) in
      (
        rw (known.stored) (
            callback-judged id created.token s'
              (ap (λ k. starts_with k token_prefix) known.token ∙ starts_with-token digits)
            ∙ ap (λ o. (judged o created.token, healthy s')) found
            ∙ ap (λ r. (r, healthy s')) (judged-own i created.token known.hashed known.pending)),
        λ token other. rw (known.stored) (
            callback-refused id token i s' found
              (ap (λ k. text_eqb k (hash_interaction_token token)) known.hashed ∙ other)),
      )
