-- ===== src/Channel/Commands.antt =====
-- src/domain/channel.rs over src/repositories/channel_memory.rs: any sequence of calls of the
-- service on the in-memory store, and how a property is shown to outlive every such sequence.
use opencord_server.Base.{Bool, List, [], ◌∷◌, Option, Text, Uuid, sym, inl, inr}
use mathlib.Core.Path.{subst}
use opencord_server.Base.Fallible.{Result-cases}
use opencord_server.Base.Action.{
  Action, Mutex, healthy, next, pure, locked, state-pure, state-locked,
}
use opencord_server.Channel.{Channel, ChannelPatch, ChannelError, store_unavailable}
use opencord_server.Channel.Memory
use opencord_server.Channel.Memory.{
  MemoryChannelState, memory_store, create_channel_body, update_channel_body, archive_channel_body,
}
use opencord_server.Channel.Service
use opencord_server.Channel.Service.{patched, new_channel}

pub data Command : Type 0 where
  create : Uuid → Uuid → Uuid → Option Text → Text → Option Text → Bool → Command
  update : Channel → ChannelPatch → Command
  delete : Channel → Command

unfoldable pub run : Command → MemoryChannelState → MemoryChannelState
run (create id organization_id space_id kind name topic is_private) s =
    (Service.create memory_store id organization_id space_id kind name topic is_private
      (healthy s)).1.guarded
run (update existing patch) s = (Service.update memory_store existing patch (healthy s)).1.guarded
run (delete existing) s = (Service.delete memory_store existing (healthy s)).1.guarded

unfoldable pub run_all : List Command → MemoryChannelState → MemoryChannelState
run_all [] s = s
run_all (c ∷ cs) s = run_all cs (run c s)

-- What each operation of the store has to keep true.
pub record Keeps (P : MemoryChannelState → Type 0) : Type 0 where
  pub by_create : (c : Channel) (s : MemoryChannelState) → P s → P (create_channel_body c s).1
  pub by_update : (c : Channel) (s : MemoryChannelState) → P s → P (update_channel_body c s).1
  pub by_archive : (i : Uuid) (s : MemoryChannelState) → P s → P (archive_channel_body i s).1

module _ (P : MemoryChannelState → Type 0) (keeps : Keeps P) where
  replaced :
      (body : Action MemoryChannelState ChannelError (Unit {0})) (c : Channel)
      (s : MemoryChannelState)
      → P (body s).1
      → P (next (λ _. pure c) (locked store_unavailable body (healthy s))).1.guarded
  replaced body c s h =
      subst (λ (t : Mutex MemoryChannelState). P t.guarded)
        (sym (state-pure (locked store_unavailable body) (λ _. c) (healthy s)))
        (subst P (sym (state-locked store_unavailable body s)) h)

  create-keeps :
      (id organization_id space_id : Uuid) (kind : Option Text) (name : Text) (topic : Option Text)
      (is_private : Bool) (s : MemoryChannelState)
      → P s
      → P
          (Service.create memory_store id organization_id space_id kind name topic is_private
            (healthy s)).1.guarded
  unfolding Service.create Memory.create_channel
  create-keeps id organization_id space_id kind name topic is_private s h =
      elim (Result-cases (new_channel id organization_id space_id kind name topic is_private)) [
        | inl (e, bad) ↦ rw bad h
        | inr (c, good) ↦ rw good (replaced (create_channel_body c) c s (keeps.by_create c s h))
      ]

  update-keeps :
      (existing : Channel) (patch : ChannelPatch) (s : MemoryChannelState)
      → P s
      → P (Service.update memory_store existing patch (healthy s)).1.guarded
  unfolding Service.update Memory.update_channel
  update-keeps existing patch s h = elim (Result-cases (patched existing patch)) [
    | inl (e, bad) ↦ rw bad h
    | inr (c, good) ↦ rw good (
        subst P (sym (state-locked store_unavailable (update_channel_body c) s))
          (keeps.by_update c s h))
  ]

  run-keeps : (c : Command) (s : MemoryChannelState) → P s → P (run c s)
  unfolding run Service.delete Memory.archive_channel
  run-keeps (create id organization_id space_id kind name topic is_private) s h =
      create-keeps id organization_id space_id kind name topic is_private s h
  run-keeps (update existing patch) s h = update-keeps existing patch s h
  run-keeps (delete existing) s h =
      replaced (archive_channel_body existing.id) existing s (keeps.by_archive existing.id s h)

  pub run_all-keeps : (cs : List Command) (s : MemoryChannelState) → P s → P (run_all cs s)
  unfolding run_all
  run_all-keeps [] s h = h
  run_all-keeps (c ∷ cs) s h = run_all-keeps cs (run c s) (run-keeps c s h)
