-- ===== src/Base/Keyed.antt =====
-- A map that stores each value under the value's own id, once; and taking out of it what passes a test.
use Prim.Native.Nat.{ℕ}
use mathlib.Core.Path.{◌≡◌, refl}
use mathlib.Core.Logic.{◌↔◌, inl, inr}
use mathlib.Core.Bool.{Bool, false}
use mathlib.Core.Option.{Option, none, some}
use mathlib.Core.List.{List, [], ◌∷◌, map}
use native.Mathlib.Omega.{arith}
use opencord_server.Base.Test.{if◌then◌else◌}
use opencord_server.Base.Lists.{filter}
use opencord_server.Base.Equality.{nat_eq, contains}
use opencord_server.Base.Map.{HashMap, get, insert, remove, values, get-insert, get-remove}
use opencord_server.Base.Member.{
  Distinct, insert-Distinct, remove-Distinct, ◌∈◌, mem-values, get_of_mem-values,
}

-- `for id in &ids { map.remove(id); }`
unfoldable pub remove_all : {V : Type 0} → List ℕ → HashMap ℕ V → HashMap ℕ V
remove_all [] m = m
remove_all (id ∷ ids) m = remove_all ids (remove m id)

pub get-remove_all :
    {V : Type 0} (ids : List ℕ) (m : HashMap ℕ V) (k : ℕ)
    → get (remove_all ids m) k ≡ (if contains ids k then none else get m k)
unfolding remove_all
get-remove_all [] m k = refl
get-remove_all (id ∷ ids) m k =
    ground (arith, get-remove_all ids (remove m id) k, get-remove m id k)

nothing_left :
    {V : Type 0} {p : V → Bool} (xs : List V) → ((v : V) → v ∈ xs → p v ≡ false) → filter p xs ≡ []
nothing_left [] h = refl
nothing_left (x ∷ xs) h = rw (h x (inl refl)) (nothing_left xs (λ v k. h v (inr k)))

module _ {V : Type 0} (id_of : V → ℕ) where
  pub record IsKeyed (m : HashMap ℕ V) : Type 0 where
    pub distinct : Distinct m
    pub own_id : (k : ℕ) (v : V) → get m k ≡ some v → id_of v ≡ k

  pub empty-IsKeyed : IsKeyed []
  unfolding get
  empty-IsKeyed = record { distinct = tt; own_id = λ k v h. cc }

  pub insert-IsKeyed : (m : HashMap ℕ V) (v : V) → IsKeyed m → IsKeyed (insert m (id_of v) v)
  insert-IsKeyed m v inv = record {
    distinct = insert-Distinct m (id_of v) v inv.distinct;
    own_id = λ k x h. ground (arith, get-insert m (id_of v) k v, inv.own_id k x);
  }

  pub remove-IsKeyed : (m : HashMap ℕ V) (k : ℕ) → IsKeyed m → IsKeyed (remove m k)
  remove-IsKeyed m k inv = record {
    distinct = remove-Distinct m k inv.distinct;
    own_id = λ j x h. ground (arith, get-remove m k j, inv.own_id j x);
  }

  pub remove_all-IsKeyed : (ids : List ℕ) (m : HashMap ℕ V) → IsKeyed m → IsKeyed (remove_all ids m)
  unfolding remove_all
  remove_all-IsKeyed [] m inv = inv
  remove_all-IsKeyed (id ∷ ids) m inv =
      remove_all-IsKeyed ids (remove m id) (remove-IsKeyed m id inv)

  pub tail-IsKeyed : (k : ℕ) (v : V) (m : HashMap ℕ V) → IsKeyed ((k, v) ∷ m) → IsKeyed m
  unfolding get
  tail-IsKeyed k v m inv = record {
    distinct = inv.distinct.1;
    own_id = λ j x h. ground (arith, inv.own_id j x, h, inv.distinct.0);
  }

  -- Among the values are exactly the stored ones.
  pub mem-values_iff :
      (m : HashMap ℕ V) (v : V) → IsKeyed m → v ∈ values m ↔ (get m (id_of v) ≡ some v)
  mem-values_iff m v inv = (
    λ h.
        let (k, found) = get_of_mem-values m v inv.distinct h in
        ground (arith, found, inv.own_id k v found),
    mem-values m (id_of v) v,
  )

  module _ (p : V → Bool) where
    abbrev pub holds : Option V → Bool
    holds none = false
    holds (some v) = p v

    abbrev pub ids_where : HashMap ℕ V → List ℕ
    ids_where m = map id_of (filter p (values m))

    pub contains-ids_where :
        (m : HashMap ℕ V) (k : ℕ) → IsKeyed m → contains (ids_where m) k ≡ holds (get m k)
    unfolding get
    contains-ids_where [] k inv = refl
    contains-ids_where ((j, w) ∷ m) k inv =
        ground
          (arith, contains-ids_where m k (tail-IsKeyed j w m inv), inv.own_id j w, inv.distinct.0)

    -- What `o` is when the values that pass the test are taken out.
    abbrev pub unless : Option V → Option V
    unless none = none
    unless (some v) = if p v then none else some v

    pub get-remove_where :
        (m : HashMap ℕ V) (k : ℕ)
        → IsKeyed m
        → get (remove_all (ids_where m) m) k ≡ unless (get m k)
    get-remove_where m k inv =
        ground (arith, get-remove_all (ids_where m) m k, contains-ids_where m k inv)

    -- Nothing passes the test any more.
    pub filter-remove_where :
        (m : HashMap ℕ V) → IsKeyed m → filter p (values (remove_all (ids_where m) m)) ≡ []
    filter-remove_where m inv = nothing_left (values (remove_all (ids_where m) m)) (λ v h.
        let kept = remove_all-IsKeyed (ids_where m) m inv in
        ground (
          arith,
          (mem-values_iff (remove_all (ids_where m) m) v kept).0 h,
          get-remove_where m (id_of v) inv,
        ))
