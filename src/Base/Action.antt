-- ===== src/Base/Action.antt =====
-- Code that reads and writes a shared state and may fail: the state that it leaves behind is kept
-- on the error path too, as in Rust. `Mutex<S>` is the state with its poison flag.
use mathlib.Core.Bool.{Bool, false}
use mathlib.Core.Path.{◌≡◌, refl}
use opencord_server.Base.Fallible.{Result, ok, err}
use opencord_server.Base.Test.{if◌then◌else◌}

abbrev pub Action : Type 0 → Type 0 → Type 0 → Type 0
Action S E A = S → Result E A × S

abbrev pub next : {S E A B : Type 0} → (A → Action S E B) → Result E A × S → Result E B × S
next f (ok a, s) = f a s
next f (err e, s) = (err e, s)

infixl 5 ◌>>=◌ ◌>>◌
abbrev pub ◌>>=◌ : {S E A B : Type 0} → Action S E A → (A → Action S E B) → Action S E B
◌>>=◌ m f s = next f (m s)

abbrev pub ◌>>◌ : {S E B : Type 0} → Action S E (Unit {0}) → Action S E B → Action S E B
◌>>◌ m k s = next (λ _. k) (m s)

abbrev pub lift : {S E A : Type 0} → Result E A → Action S E A
lift r s = (r, s)

abbrev pub pure : {S E A : Type 0} → A → Action S E A
pure a s = (ok a, s)

abbrev pub fail : {S E A : Type 0} → E → Action S E A
fail e s = (err e, s)

pub record Mutex (S : Type 0) : Type 0 where
  pub poisoned : Bool
  pub guarded : S

abbrev pub release : {S E A : Type 0} → Mutex S → Result E A × S → Result E A × Mutex S
release m (r, s) = (r, record { poisoned = m.poisoned; guarded = s })

-- `lock().map_err(|_| e)?`, then the body under the guard.
abbrev pub locked : {S E A : Type 0} → E → Action S E A → Action (Mutex S) E A
locked e body m = if m.poisoned then (err e, m) else release m (body m.guarded)

abbrev pub healthy : {S : Type 0} → S → Mutex S
healthy s = record { poisoned = false; guarded = s }

module _ {S E A : Type 0} where
  -- A result that is replaced leaves the state alone.
  pub state-pure :
      {B : Type 0} (m : Action S E A) (f : A → B) (s : S)
      → (next (λ a. pure (f a)) (m s)).1 ≡ (m s).1
  state-pure m f s = after (m s)
    where
      after : (r : Result E A × S) → (next (λ a. pure (f a)) r).1 ≡ r.1
      after (ok a, t) = refl
      after (err e, t) = refl

  -- Under a healthy lock the body's state is the state.
  pub state-locked :
      (e : E) (body : Action S E A) (s : S) → (locked e body (healthy s)).1.guarded ≡ (body s).1
  state-locked e body s = after (body s)
    where
      after : (r : Result E A × S) → (release (healthy s) r).1.guarded ≡ r.1
      after (r, t) = refl

  -- And the body's result is the result.
  pub result-locked :
      (e : E) (body : Action S E A) (s : S) → (locked e body (healthy s)).0 ≡ (body s).0
  result-locked e body s = after (body s)
    where
      after : (r : Result E A × S) → (release (healthy s) r).0 ≡ r.0
      after (r, t) = refl
