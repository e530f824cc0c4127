-- ===== src/Base/Fallible.antt =====
-- `Result<A, E>` with `?` as the bind of a do block.
use mathlib.Core.Path.{◌≡◌, refl}
use mathlib.Core.Logic.{◌⊎◌, inl, inr}
use mathlib.Core.Option.{Option, none, some}

pub data Result (E A : Type 0) : Type 0 where
  ok : A → Result E A
  err : E → Result E A

infixl 5 ◌>>=◌ ◌>>◌
abbrev pub ◌>>=◌ : {E A B : Type 0} → Result E A → (A → Result E B) → Result E B
err e >>= rest = err e
ok a >>= rest = rest a

-- A step with no value of interest.
abbrev pub ◌>>◌ : {E B : Type 0} → Result E (Unit {0}) → Result E B → Result E B
err e >> rest = err e
ok _ >> rest = rest

abbrev pub map_err : {E F A : Type 0} → (E → F) → Result E A → Result F A
map_err f (ok a) = ok a
map_err f (err e) = err (f e)

-- `Option::ok_or`
abbrev pub ok_or : {E A : Type 0} → E → Option A → Result E A
ok_or e none = err e
ok_or e (some a) = ok a

pub Result-cases :
    {E A : Type 0} (r : Result E A) → ((e : E) × (r ≡ err e)) ⊎ ((a : A) × (r ≡ ok a))
Result-cases (err e) = inl (e, refl)
Result-cases (ok a) = inr (a, refl)

-- What is known when a chain ends well: its first step gave the value that the rest took.
pub record Succeeds {E A B : Type 0} (m : Result E A) (rest : A → Result E B) (b : B) : Type 0 where
  pub value : A
  pub first : m ≡ ok value
  pub then_rest : rest value ≡ ok b

pub >>=-Succeeds :
    {E A B : Type 0} {b : B} (m : Result E A) (rest : A → Result E B)
    → (m >>= rest) ≡ ok b
    → Succeeds m rest b
>>=-Succeeds (err e) rest h = cc
>>=-Succeeds (ok a) rest h = record { value = a; first = refl; then_rest = h }

pub >>-Succeeds :
    {E B : Type 0} {b : B} (m : Result E (Unit {0})) (rest : Result E B)
    → (m >> rest) ≡ ok b
    → (m ≡ ok tt) × (rest ≡ ok b)
>>-Succeeds (err e) rest h = cc
>>-Succeeds (ok _) rest h = (refl, h)

pub ok-injective : {E A : Type 0} {a b : A} → ◌≡◌ {A = Result E A} (ok a) (ok b) → a ≡ b
ok-injective h = cc
