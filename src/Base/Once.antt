-- ===== src/Base/Once.antt =====
-- Maps keyed by an id of their values: looking up among the values, in any order, and what stays when
-- other ids are taken out.
use Prim.Native.Nat.{ℕ}
use mathlib.Core.Path.{◌≡◌, refl, sym, ◌∙◌}
use mathlib.Core.Logic.{inl, inr}
use mathlib.Core.Bool.{Bool, true, false, ◌&&◌, ◌||◌}
use mathlib.Core.Option.{Option, none, some}
use mathlib.Core.List.{List, [], ◌∷◌}
use native.Mathlib.Omega.{arith}
use opencord_server.Base.Test.{Bool-cases, nat_eqb, nat_eqb_iff}
use opencord_server.Base.Lists.{filter, any, All}
use opencord_server.Base.Sort.{insert_sorted, sort_by}
use opencord_server.Base.Equality.{nat_eq, contains}
use opencord_server.Base.Map.{HashMap, get, remove, values, get-remove}
use opencord_server.Base.Member.{Distinct, remove-Distinct}
use opencord_server.Base.Keyed.{
  IsKeyed, tail-IsKeyed, remove_all, holds, ids_where, contains-ids_where,
}

module _ {A : Type 0} (leq : A → A → Bool) where
  any-insert_sorted :
      (p : A → Bool) (x : A) (xs : List A) → any p (insert_sorted leq x xs) ≡ (p x || any p xs)
  unfolding insert_sorted
  any-insert_sorted p x [] = refl
  any-insert_sorted p x (y ∷ ys) = ground (arith, any-insert_sorted p x ys)

  pub any-sort_by : (p : A → Bool) (xs : List A) → any p (sort_by leq xs) ≡ any p xs
  unfolding sort_by
  any-sort_by p [] = refl
  any-sort_by p (x ∷ xs) = ground (arith, any-insert_sorted p x (sort_by leq xs), any-sort_by p xs)

  All-insert_sorted {ℓ} :
      (P : A → Type ℓ) (x : A) (xs : List A) → P x → All P xs → All P (insert_sorted leq x xs)
  unfolding insert_sorted
  All-insert_sorted P x [] h hs = (h, tt)
  All-insert_sorted P x (y ∷ ys) h (k, ks) = elim (Bool-cases (leq x y)) [
    | inl before ↦ rw before (h, (k, ks))
    | inr after ↦ rw after (k, All-insert_sorted P x ys h ks)
  ]

  pub All-sort_by {ℓ} : (P : A → Type ℓ) (xs : List A) → All P xs → All P (sort_by leq xs)
  unfolding sort_by
  All-sort_by P [] h = tt
  All-sort_by P (x ∷ xs) (h, hs) = All-insert_sorted P x (sort_by leq xs) h (All-sort_by P xs hs)

module _ {V : Type 0} (id_of : V → ℕ) where
  -- No id comes twice.
  abbrev pub Once : List V → Type 0
  Once [] = Unit
  Once (x ∷ xs) = (any (λ y. nat_eqb (id_of x) (id_of y)) xs ≡ false) × Once xs

  module _ (leq : V → V → Bool) where
    insert_sorted-Once :
        (x : V) (xs : List V)
        → any (λ y. nat_eqb (id_of x) (id_of y)) xs ≡ false
        → Once xs
        → Once (insert_sorted leq x xs)
    unfolding insert_sorted
    insert_sorted-Once x [] h k = (refl, tt)
    insert_sorted-Once x (y ∷ ys) h (k, ks) = elim (Bool-cases (leq x y)) [
      | inl before ↦ rw before (h, (k, ks))
      | inr after ↦ rw after (
        ground (
          arith,
          h,
          k,
          any-insert_sorted leq (λ z. nat_eqb (id_of y) (id_of z)) x ys,
          nat_eqb_iff (id_of x) (id_of y),
          nat_eqb_iff (id_of y) (id_of x),
        ),
        insert_sorted-Once x ys (ground (arith, h)) ks,
      )
    ]

    pub sort_by-Once : (xs : List V) → Once xs → Once (sort_by leq xs)
    unfolding sort_by
    sort_by-Once [] h = tt
    sort_by-Once (x ∷ xs) (h, hs) =
        insert_sorted-Once x (sort_by leq xs)
          (any-sort_by leq (λ y. nat_eqb (id_of x) (id_of y)) xs ∙ h) (sort_by-Once xs hs)

  -- A test on the value of one id is a test on what is stored under it.
  pub any-values :
      (q : V → Bool) (m : HashMap ℕ V) (k : ℕ)
      → IsKeyed id_of m
      → any (λ v. nat_eqb k (id_of v) && q v) (values m) ≡ holds id_of q (get m k)
  unfolding get
  any-values q [] k inv = refl
  any-values q ((j, w) ∷ m) k inv =
      ground
        (arith, any-values q m k (tail-IsKeyed id_of j w m inv), inv.own_id j w, inv.distinct.0)

  pub values-Once : (m : HashMap ℕ V) → IsKeyed id_of m → Once (values m)
  unfolding get
  values-Once [] inv = tt
  values-Once ((j, w) ∷ m) inv =
      let inv' = tail-IsKeyed id_of j w m inv in
      (
        ground (arith, any-values (λ _. true) m j inv', inv.own_id j w, inv.distinct.0),
        values-Once m inv',
      )

module _ {V : Type 0} (id_of : V → ℕ) (q : V → Bool) where
  filter-remove :
      (m : HashMap ℕ V) (k : ℕ)
      → Distinct m
      → holds id_of q (get m k) ≡ false
      → filter q (values (remove m k)) ≡ filter q (values m)
  unfolding get remove
  filter-remove [] k d h = refl
  filter-remove ((j, w) ∷ m) k d h = ground (arith, filter-remove m k d.1, d.0, h)

  -- What passes a test stays when only ids are taken out whose values fail it.
  pub filter-remove_all :
      (ids : List ℕ) (m : HashMap ℕ V)
      → Distinct m
      → All (λ k. holds id_of q (get m k) ≡ false) ids
      → filter q (values (remove_all ids m)) ≡ filter q (values m)
  unfolding remove_all
  filter-remove_all [] m d h = refl
  filter-remove_all (k ∷ ids) m d (h, hs) =
      filter-remove_all ids (remove m k) (remove-Distinct m k d) (still ids hs)
      ∙ filter-remove m k d h
    where
      still :
          (js : List ℕ)
          → All (λ j. holds id_of q (get m j) ≡ false) js
          → All (λ j. holds id_of q (get (remove m k) j) ≡ false) js
      still [] hs = tt
      still (j ∷ js) (h', hs) = (ground (arith, get-remove m k j, h'), still js hs)

module _ {V : Type 0} (id_of : V → ℕ) (p q : V → Bool) where
  fails_at :
      (ids : List ℕ) (m : HashMap ℕ V)
      → IsKeyed id_of m
      → ((v : V) → p v ≡ true → q v ≡ false)
      → ((k : ℕ) → contains ids k ≡ true → holds id_of p (get m k) ≡ true)
      → All (λ k. holds id_of q (get m k) ≡ false) ids
  fails_at [] m inv apart h = tt
  fails_at (k ∷ ids) m inv apart h = (
    fails (get m k) (h k (ground (arith, nat_eqb_iff k k))),
    fails_at ids m inv apart (λ j c. h j (ground (arith, c))),
  )
    where
      fails : (o : Option V) → holds id_of p o ≡ true → holds id_of q o ≡ false
      fails none e = refl
      fails (some v) e = apart v e

  -- Two tests that no value passes both: taking out what passes the one leaves what passes the other.
  pub filter-remove_apart :
      (m : HashMap ℕ V)
      → IsKeyed id_of m
      → ((v : V) → p v ≡ true → q v ≡ false)
      → filter q (values (remove_all (ids_where id_of p m) m)) ≡ filter q (values m)
  filter-remove_apart m inv apart = filter-remove_all id_of q (ids_where id_of p m) m inv.distinct (
      fails_at (ids_where id_of p m) m inv apart
        (λ k c. sym (contains-ids_where id_of p m k inv) ∙ c))
