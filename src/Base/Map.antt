-- ===== src/Base/Map.antt =====
-- `HashMap<K, V>` as an association list: `insert` replaces in place or appends, `remove` takes
-- every entry of the key out, and `values` walks the entries in list order. A `HashMap` promises no
-- order; the theorems hold for the map in every order of its entries.
use mathlib.Core.Path.{◌≡◌, refl}
use mathlib.Core.Logic.{◌≢◌}
use mathlib.Core.Bool.{Bool, true, false}
use mathlib.Core.Option.{Option, none, some}
use mathlib.Core.List.{List, [], ◌∷◌, map}
use native.Mathlib.Omega.{arith}
use opencord_server.Base.Test.{if◌then◌else◌}
use opencord_server.Base.Lists.{any, All}
use opencord_server.Base.Equality.{Eq, ◌==◌}

abbrev pub HashMap : Type 0 → Type 0 → Type 0
HashMap K V = List (K × V)

abbrev pub is_some {ℓ} : {A : Type ℓ} → Option A → Bool
is_some none = false
is_some (some _) = true

module _ {K V : Type 0} ⦃e : Eq K⦄ where
  unfoldable pub get : HashMap K V → K → Option V
  get [] k = none
  get ((j, v) ∷ m) k = if j == k then some v else get m k

  abbrev pub contains_key : HashMap K V → K → Bool
  contains_key m k = is_some (get m k)

  unfoldable pub insert : HashMap K V → K → V → HashMap K V
  insert [] k v = (k, v) ∷ []
  insert ((j, w) ∷ m) k v = if j == k then (k, v) ∷ m else (j, w) ∷ insert m k v

  unfoldable pub remove : HashMap K V → K → HashMap K V
  remove [] k = []
  remove ((j, w) ∷ m) k = if j == k then remove m k else (j, w) ∷ remove m k

  abbrev pub values : HashMap K V → List V
  values m = map (λ (p : K × V). p.1) m

  pub any-values-insert :
      (f : V → Bool) (m : HashMap K V) (k : K) (v : V)
      → f v ≡ true
      → any f (values (insert m k v)) ≡ true
  unfolding insert
  any-values-insert f [] k v h = rw h
  any-values-insert f ((i, w) ∷ m) k v h = ground (arith, any-values-insert f m k v h)

  pub All-values-insert {ℓ} :
      (P : V → Type ℓ) (m : HashMap K V) (k : K) (v : V)
      → P v
      → All P (values m)
      → All P (values (insert m k v))
  unfolding insert
  All-values-insert P [] k v p h = (p, tt)
  All-values-insert P ((i, w) ∷ m) k v p (q, h) = ground (arith, All-values-insert P m k v p h)

  pub get-insert :
      (m : HashMap K V) (k j : K) (v : V)
      → get (insert m k v) j ≡ (if k == j then some v else get m j)
  unfolding get insert
  get-insert [] k j v = refl
  get-insert ((i, w) ∷ m) k j v =
      ground (arith, e.beq_iff k j, e.beq_iff i k, e.beq_iff i j, get-insert m k j v)

  pub get-remove :
      (m : HashMap K V) (k j : K) → get (remove m k) j ≡ (if k == j then none else get m j)
  unfolding get remove
  get-remove [] k j = ground arith
  get-remove ((i, w) ∷ m) k j =
      ground (arith, e.beq_iff k j, e.beq_iff i k, e.beq_iff i j, get-remove m k j)

  pub get-insert_self : (m : HashMap K V) (k : K) (v : V) → get (insert m k v) k ≡ some v
  get-insert_self m k v = ground (arith, get-insert m k k v, e.beq_iff k k)

  pub get-insert_ne : (m : HashMap K V) (k j : K) (v : V) → k ≢ j → get (insert m k v) j ≡ get m j
  get-insert_ne m k j v h = ground (arith, get-insert m k j v, e.beq_iff k j)
