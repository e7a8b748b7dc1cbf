-- ===== src/Prelude/Sorting.antt =====
-- Python's `sorted` with a key and `min`: a stable sort by a total order, and what its head is.
use mathlib.Core.List.Perm
use mathlib.Core.List.{Perm}
use mathlib.Core.Path.{subst}
use infra_joint_planner.Prelude.{
  ◌≡◌, refl, ◌⊎◌, inl, inr, Bool, true, false, List, [], ◌∷◌, some, if◌then◌else◌, Bool-cases, In,
  All, All-In, All-of_In, first,
}

-- What `sorted` relies on: the comparison of keys is a total preorder.
pub record IsOrder {A : Type 0} (le : A → A → Bool) : Type 0 where
  pub total : (a b : A) → (le a b ≡ true) ⊎ (le b a ≡ true)
  pub trans : (a b c : A) → le a b ≡ true → le b c ≡ true → le a c ≡ true

-- The same on the elements of which `P` holds.
pub record IsOrderOn {A : Type 0} (P : A → Type 0) (le : A → A → Bool) : Type 0 where
  pub total : (a b : A) → P a → P b → (le a b ≡ true) ⊎ (le b a ≡ true)
  pub trans : (a b c : A) → P a → P b → P c → le a b ≡ true → le b c ≡ true → le a c ≡ true

module _ {A : Type 0} (le : A → A → Bool) where
  -- Among equal keys the earlier element stays in front.
  unfoldable pub insert_sorted : A → List A → List A
  insert_sorted a [] = a ∷ []
  insert_sorted a (x ∷ xs) =
      let rest = insert_sorted a xs in if le a x then a ∷ x ∷ xs else x ∷ rest

  unfoldable pub sort_by : List A → List A
  unfolding insert_sorted
  sort_by [] = []
  sort_by (x ∷ xs) = insert_sorted x (sort_by xs)

  insert_sorted-perm : (a : A) (xs : List A) → Perm (insert_sorted a xs) (a ∷ xs)
  unfolding insert_sorted
  insert_sorted-perm a [] = Perm.rfl
  insert_sorted-perm a (x ∷ xs) = elim (Bool-cases (le a x)) [
    | inl h ↦ rw h Perm.rfl
    | inr h ↦ rw h (Perm.trans (Perm.cons x (insert_sorted-perm a xs)) (Perm.swap a x xs))
  ]

  pub sort_by-perm : (xs : List A) → Perm (sort_by xs) xs
  unfolding sort_by
  sort_by-perm [] = Perm.rfl
  sort_by-perm (x ∷ xs) =
      Perm.trans (insert_sorted-perm x (sort_by xs)) (Perm.cons x (sort_by-perm xs))

  In-insert_sorted : (b a : A) (xs : List A) → In b (insert_sorted a xs) → (b ≡ a) ⊎ In b xs
  unfolding insert_sorted
  In-insert_sorted b a [] m = m
  In-insert_sorted b a (x ∷ xs) m = elim (Bool-cases (le a x)) [
    | inl h ↦ rw h at m
    | inr h ↦ later (In-insert_sorted b a xs) (rw h at m)
  ]
    where
      later :
          (In b (insert_sorted a xs) → (b ≡ a) ⊎ In b xs)
          → (b ≡ x) ⊎ In b (insert_sorted a xs)
          → (b ≡ a) ⊎ In b (x ∷ xs)
      later ih (inl e) = inr (inl e)
      later ih (inr r) = elim (ih r) [ inl e ↦ inl e | inr m' ↦ inr (inr m') ]

  insert_sorted-In : (b a : A) (xs : List A) → (b ≡ a) ⊎ In b xs → In b (insert_sorted a xs)
  unfolding insert_sorted
  insert_sorted-In b a [] m = m
  insert_sorted-In b a (x ∷ xs) m = elim (Bool-cases (le a x)) [
    | inl h ↦ rw h m
    | inr h ↦ rw h (later (insert_sorted-In b a xs) m)
  ]
    where
      later :
          ((b ≡ a) ⊎ In b xs → In b (insert_sorted a xs))
          → (b ≡ a) ⊎ In b (x ∷ xs)
          → In b (x ∷ insert_sorted a xs)
      later ih (inl e) = inr (ih (inl e))
      later ih (inr (inl e)) = inl e
      later ih (inr (inr m')) = inr (ih (inr m'))

  pub In-sort_by : (a : A) (xs : List A) → In a (sort_by xs) → In a xs
  unfolding sort_by
  In-sort_by a [] m = m
  In-sort_by a (x ∷ xs) m = elim (In-insert_sorted a x (sort_by xs) m) [
    | inl e ↦ inl e
    | inr r ↦ inr (In-sort_by a xs r)
  ]

  pub sort_by-In : (a : A) (xs : List A) → In a xs → In a (sort_by xs)
  unfolding sort_by
  sort_by-In a [] m = m
  sort_by-In a (x ∷ xs) (inl e) = insert_sorted-In a x (sort_by xs) (inl e)
  sort_by-In a (x ∷ xs) (inr m) = insert_sorted-In a x (sort_by xs) (inr (sort_by-In a xs m))

  -- Every element is at most each one behind it.
  abbrev pub IsSorted : List A → Type 0
  IsSorted [] = Unit
  IsSorted (x ∷ xs) = All (λ y. le x y ≡ true) xs × IsSorted xs

  module _ (P : A → Type 0) (order : IsOrderOn P le) where
    le_of_not : (a b : A) → P a → P b → le a b ≡ false → le b a ≡ true
    le_of_not a b p q h = elim (order.total a b p q) [ inl k ↦ absurd (cc) | inr k ↦ k ]

    insert_sorted-IsSorted :
        (a : A) (xs : List A) → P a → All P xs → IsSorted xs → IsSorted (insert_sorted a xs)
    unfolding insert_sorted
    insert_sorted-IsSorted a [] p q s = (tt, tt)
    insert_sorted-IsSorted a (x ∷ xs) p q s = elim (Bool-cases (le a x)) [
      | inl h ↦ rw h (
        (
          h,
          All-of_In _ xs
              λ y m. order.trans a x y p q.0 (All-In P y xs q.1 m) h (All-In _ y xs s.0 m),
        ),
        s,
      )
      | inr h ↦ rw h (
        All-of_In _ (insert_sorted a xs) (λ y m. behind h y (In-insert_sorted y a xs m)),
        insert_sorted-IsSorted a xs p q.1 s.1,
      )
    ]
      where
        behind : le a x ≡ false → (y : A) → (y ≡ a) ⊎ In y xs → le x y ≡ true
        behind h y (inl e) = rw e (le_of_not a x p q.0 h)
        behind h y (inr m) = All-In _ y xs s.0 m

    pub sort_by-IsSorted_on : (xs : List A) → All P xs → IsSorted (sort_by xs)
    unfolding sort_by
    sort_by-IsSorted_on [] q = tt
    sort_by-IsSorted_on (x ∷ xs) q =
        insert_sorted-IsSorted x (sort_by xs) q.0
          (All-of_In P (sort_by xs) (λ a m. All-In P a xs q.1 (In-sort_by a xs m)))
          (sort_by-IsSorted_on xs q.1)

  module _ (order : IsOrder le) where
    pub sort_by-IsSorted : (xs : List A) → IsSorted (sort_by xs)
    sort_by-IsSorted xs =
        sort_by-IsSorted_on (λ a. Unit)
          (record { total = λ a b p q. order.total a b; trans = λ a b c p q r. order.trans a b c })
          xs (All-of_In (λ a. Unit) xs (λ a m. tt))

    IsSorted-first :
        (a : A) (xs : List A) → IsSorted xs → first xs ≡ some a → All (λ y. le a y ≡ true) xs
    IsSorted-first a [] s e = tt
    IsSorted-first a (x ∷ xs) s e =
        subst (λ b. All (λ y. le b y ≡ true) (x ∷ xs)) (cc)
          (elim (order.total x x) [ inl k ↦ k | inr k ↦ k ], s.0)

    -- The head of a sorted list is one of the given elements, and no other is below it.
    pub first-sort_by :
        (a : A) (xs : List A) → first (sort_by xs) ≡ some a → In a xs × All (λ y. le a y ≡ true) xs
    first-sort_by a xs e = (
      In-sort_by a xs (first-In (sort_by xs) e),
      All-of_In _ xs λ y m.
          All-In _ y (sort_by xs) (IsSorted-first a (sort_by xs) (sort_by-IsSorted xs) e)
            (sort_by-In y xs m),
    )
      where
        first-In : (ys : List A) → first ys ≡ some a → In a ys
        first-In [] h = cc
        first-In (y ∷ ys) h = inl (cc)

  pub first-sort_by_cons : (x : A) (xs : List A) → (a : A) × (first (sort_by (x ∷ xs)) ≡ some a)
  unfolding sort_by
  first-sort_by_cons x xs = inserted (sort_by xs)
    where
      inserted : (ys : List A) → (a : A) × (first (insert_sorted x ys) ≡ some a)
      inserted [] = (x, refl)
      inserted (y ∷ ys) = elim (Bool-cases (le x y)) [ inl h ↦ (x, rw h) | inr h ↦ (y, rw h) ]
