-- ===== src/Base/Member.antt =====
-- Membership by recursion, in filtered and sorted lists and among the values of a map.
use mathlib.Core.Path.{◌≡◌, refl, sym, ap, ◌∙◌}
use mathlib.Core.Logic.{◌⊎◌, ◌↔◌, inl, inr}
use mathlib.Core.Bool.{Bool, true, false}
use mathlib.Core.Option.{Option, none, some}
use mathlib.Core.List.{List, [], ◌∷◌}
use native.Mathlib.Omega.{arith}
use opencord_server.Base.Test.{Bool-cases}
use opencord_server.Base.Lists.{filter, filter_map, All}
use opencord_server.Base.Sort.{insert_sorted, sort_by}
use opencord_server.Base.Equality.{Eq, ◌==◌, contains}
use opencord_server.Base.Map.{HashMap, get, insert, remove, values, get-insert, get-remove}

module _ {A : Type 0} where
  infix 50 ◌∈◌
  abbrev pub ◌∈◌ : A → List A → Type 0
  x ∈ [] = ⊥
  x ∈ (y ∷ ys) = (x ≡ y) ⊎ x ∈ ys

  pub mem-filter_iff :
      (p : A → Bool) (x : A) (ys : List A) → x ∈ filter p ys ↔ (x ∈ ys × (p x ≡ true))
  mem-filter_iff p x [] = (λ h. absurd h, λ h. absurd h.0)
  mem-filter_iff p x (y ∷ ys) =
      let (forth, back) = mem-filter_iff p x ys in
      elim (Bool-cases (p y)) [
        | inl passes ↦ rw passes (
          (elim [ inl e ↦ (inl e, ap p e ∙ passes) | inr h ↦ (inr (forth h).0, (forth h).1) ]),
          λ h. elim h.0 [ inl e ↦ inl e | inr k ↦ inr (back (k, h.1)) ],
        )
        | inr fails ↦ rw fails (
          (λ h. (inr (forth h).0, (forth h).1)),
          λ h. elim h.0 [ inl e ↦ cc (ap p e, h.1, fails) | inr k ↦ back (k, h.1) ],
        )
      ]

  mem-insert_sorted_iff :
      (leq : A → A → Bool) (x y : A) (ys : List A) → x ∈ insert_sorted leq y ys ↔ ((x ≡ y) ⊎ x ∈ ys)
  unfolding insert_sorted
  mem-insert_sorted_iff leq x y [] = (λ h. h, λ h. h)
  mem-insert_sorted_iff leq x y (z ∷ zs) =
      let (forth, back) = mem-insert_sorted_iff leq x y zs in
      elim (Bool-cases (leq y z)) [
        | inl before ↦ rw before (λ h. h, λ h. h)
        | inr after ↦ rw after (
          (elim [
            | inl e ↦ inr (inl e)
            | inr h ↦ elim (forth h) [ inl e ↦ inl e | inr k ↦ inr (inr k) ]
          ]),
          elim [
            | inl e ↦ inr (back (inl e))
            | inr h ↦ elim h [ inl e ↦ inl e | inr k ↦ inr (back (inr k)) ]
          ],
        )
      ]

  -- Sorting keeps what is in a list.
  pub mem-sort_by_iff : (leq : A → A → Bool) (x : A) (ys : List A) → x ∈ sort_by leq ys ↔ x ∈ ys
  unfolding sort_by
  mem-sort_by_iff leq x [] = (λ h. h, λ h. h)
  mem-sort_by_iff leq x (y ∷ ys) =
      let (forth, back) = mem-sort_by_iff leq x ys in
      let (forth', back') = mem-insert_sorted_iff leq x y (sort_by leq ys) in
      (
        (λ h. elim (forth' h) [ inl e ↦ inl e | inr k ↦ inr (forth k) ]),
        elim [ inl e ↦ back' (inl e) | inr k ↦ back' (inr (back k)) ],
      )

module _ {A B : Type 0} (f : A → Option B) where
  abbrev Made : B → List A → Type 0
  Made y xs = (x : A) × (x ∈ xs) × (f x ≡ some y)

  -- One more element, by what it is mapped to.
  mem-filter_map-cons :
      (y : B) (x : A) (xs : List A) (o : Option B)
      → f x ≡ o
      → y ∈ filter_map f xs ↔ Made y xs
      → y ∈ (elim o [ none ↦ filter_map f xs | some z ↦ z ∷ filter_map f xs ]) ↔ Made y (x ∷ xs)
  mem-filter_map-cons y x xs none skipped (forth, back) = (
    λ h. let (w, among, made) = forth h in (w, inr among, made),
    λ h. elim h.1 [ inl e ↦ cc (ap f e, h.2, skipped) | inr among ↦ back (h.0, among, h.2) ],
  )
  mem-filter_map-cons y x xs (some z) made (forth, back) = (
    elim [
      | inl e ↦ (x, inl refl, made ∙ ap some (sym e))
      | inr h ↦ let (w, among, also) = forth h in (w, inr among, also)
    ],
    λ h. elim h.1 [
      | inl e ↦ inl (ground (arith, h.2, ap f e, made))
      | inr among ↦ inr (back (h.0, among, h.2))
    ],
  )

  pub mem-filter_map_iff :
      (y : B) (xs : List A) → y ∈ filter_map f xs ↔ ((x : A) × (x ∈ xs) × (f x ≡ some y))
  mem-filter_map_iff y [] = (λ h. absurd h, λ h. absurd h.1)
  mem-filter_map_iff y (x ∷ xs) = mem-filter_map-cons y x xs (f x) refl (mem-filter_map_iff y xs)

module _ {A : Type 0} ⦃e : Eq A⦄ where
  pub mem-contains_iff : (xs : List A) (a : A) → (contains xs a ≡ true) ↔ a ∈ xs
  mem-contains_iff [] a = (λ h. cc, λ h. absurd h)
  mem-contains_iff (x ∷ xs) a =
      let (forth, back) = mem-contains_iff xs a in
      elim (Bool-cases (x == a)) [
        | inl same ↦ rw same (λ h. inl (sym ((e.beq_iff x a).0 same)), λ h. refl)
        | inr other ↦ rw other (
          λ h. inr (forth h),
          λ h. elim h [
            | inl same ↦ cc ((e.beq_iff x a).1 (sym same), other)
            | inr among ↦ back among
          ],
        )
      ]

-- A list in which every element is before all that follow it.
module _ {A : Type 0} (leq : A → A → Bool) where
  abbrev pub Sorted : List A → Type 0
  Sorted [] = Unit
  Sorted (x ∷ xs) = All (λ y. leq x y ≡ true) xs × Sorted xs

  pub record IsOrder : Type 0 where
    pub total : (x y : A) → leq x y ≡ false → leq y x ≡ true
    pub trans : (x y z : A) → leq x y ≡ true → leq y z ≡ true → leq x z ≡ true

  module _ (order : IsOrder) where
    All-before :
        (x y : A) (ys : List A)
        → leq x y ≡ true
        → All (λ z. leq y z ≡ true) ys
        → All (λ z. leq x z ≡ true) ys
    All-before x y [] h k = tt
    All-before x y (z ∷ zs) h (k, ks) = (order.trans x y z h k, All-before x y zs h ks)

    All-insert :
        (x y : A) (ys : List A)
        → leq x y ≡ true
        → All (λ z. leq x z ≡ true) ys
        → All (λ z. leq x z ≡ true) (insert_sorted leq y ys)
    unfolding insert_sorted
    All-insert x y [] h k = (h, tt)
    All-insert x y (z ∷ zs) h (k, ks) = elim (Bool-cases (leq y z)) [
      | inl before ↦ rw before (h, (k, ks))
      | inr after ↦ rw after (k, All-insert x y zs h ks)
    ]

    insert_sorted-Sorted : (x : A) (ys : List A) → Sorted ys → Sorted (insert_sorted leq x ys)
    unfolding insert_sorted
    insert_sorted-Sorted x [] h = (tt, tt)
    insert_sorted-Sorted x (y ∷ ys) (h, hs) = elim (Bool-cases (leq x y)) [
      | inl before ↦ rw before ((before, All-before x y ys before h), (h, hs))
      | inr after ↦
          rw after (All-insert y x ys (order.total x y after) h, insert_sorted-Sorted x ys hs)
    ]

    pub sort_by-Sorted : (xs : List A) → Sorted (sort_by leq xs)
    unfolding sort_by
    sort_by-Sorted [] = tt
    sort_by-Sorted (x ∷ xs) = insert_sorted-Sorted x (sort_by leq xs) (sort_by-Sorted xs)

module _ {K V : Type 0} ⦃e : Eq K⦄ where
  -- No key has two entries.
  abbrev pub Distinct : HashMap K V → Type 0
  Distinct [] = Unit
  Distinct ((k, v) ∷ m) = (get m k ≡ none) × Distinct m

  absent-insert :
      (m : HashMap K V) (k j : K) (v : V)
      → get m j ≡ none
      → (k == j) ≡ false
      → get (insert m k v) j ≡ none
  absent-insert m k j v h ne = ground (arith, get-insert m k j v)

  pub insert-Distinct : (m : HashMap K V) (k : K) (v : V) → Distinct m → Distinct (insert m k v)
  unfolding insert
  insert-Distinct [] k v h = (unfold get in refl, tt)
  insert-Distinct ((j, w) ∷ m) k v (h, hs) = elim (Bool-cases (j == k)) [
    | inl same ↦ rw same (rw (← (e.beq_iff j k).0 same) h, hs)
    | inr other ↦ rw other (
      absent-insert m k j v h (ground (arith, e.beq_iff j k, e.beq_iff k j, other)),
      insert-Distinct m k v hs,
    )
  ]

  pub remove-Distinct : (m : HashMap K V) (k : K) → Distinct m → Distinct (remove m k)
  unfolding remove
  remove-Distinct [] k h = tt
  remove-Distinct ((j, w) ∷ m) k (h, hs) = elim (Bool-cases (j == k)) [
    | inl same ↦ rw same (remove-Distinct m k hs)
    | inr other ↦ rw other (ground (arith, get-remove m k j, h), remove-Distinct m k hs)
  ]

  -- What is stored is among the values.
  pub mem-values : (m : HashMap K V) (k : K) (v : V) → get m k ≡ some v → v ∈ values m
  unfolding get
  mem-values [] k v h = cc
  mem-values ((j, w) ∷ m) k v h = elim (Bool-cases (j == k)) [
    | inl same ↦ inl (ground (arith, same, h))
    | inr other ↦ inr (mem-values m k v (ground (arith, other, h)))
  ]

  -- What is among the values is stored, if no key has two entries.
  pub get_of_mem-values :
      (m : HashMap K V) (v : V) → Distinct m → v ∈ values m → (k : K) × (get m k ≡ some v)
  unfolding get
  get_of_mem-values [] v d h = absurd h
  get_of_mem-values ((j, w) ∷ m) v (d, ds) (inl same) = (j, ground (arith, e.beq_iff j j, same))
  get_of_mem-values ((j, w) ∷ m) v (d, ds) (inr later) =
      let (k, found) = get_of_mem-values m v ds later in
      (k, ground (arith, found, d, e.beq_iff j k))
