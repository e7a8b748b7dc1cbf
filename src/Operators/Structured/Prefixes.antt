-- ===== src/Operators/Structured/Prefixes.antt =====
-- The first elements of a sorted list, and those behind them.
use infra_joint_planner.Prelude.{
  ℕ, zero, suc, ◌≡◌, refl, ap, ◌⊎◌, inl, inr, Bool, true, List, [], ◌∷◌, ◌++◌, In, take, length,
  All-In, All-of_In,
}
use infra_joint_planner.Prelude.Sorting.{IsSorted}

abbrev pub drop : {A : Type 0} → ℕ → List A → List A
drop zero xs = xs
drop (suc n) [] = []
drop (suc n) (x ∷ xs) = drop n xs

module _ {A : Type 0} where
  pub take-drop : (n : ℕ) (xs : List A) → take n xs ++ drop n xs ≡ xs
  take-drop zero xs = refl
  take-drop (suc n) [] = refl
  take-drop (suc n) (x ∷ xs) = ap (λ r. x ∷ r) (take-drop n xs)

  pub In-take : (a : A) (n : ℕ) (xs : List A) → In a (take n xs) → In a xs
  In-take a zero xs m = absurd m
  In-take a (suc n) [] m = absurd m
  In-take a (suc n) (x ∷ xs) (inl e) = inl e
  In-take a (suc n) (x ∷ xs) (inr m) = inr (In-take a n xs m)

  pub In-drop : (a : A) (n : ℕ) (xs : List A) → In a (drop n xs) → In a xs
  In-drop a zero xs m = m
  In-drop a (suc n) [] m = absurd m
  In-drop a (suc n) (x ∷ xs) m = inr (In-drop a n xs m)

  pub all_or_full : (n : ℕ) (xs : List A) → (drop n xs ≡ []) ⊎ (length (take n xs) ≡ n)
  all_or_full zero xs = inr refl
  all_or_full (suc n) [] = inl refl
  all_or_full (suc n) (x ∷ xs) = elim (all_or_full n xs) [ inl e ↦ inl e | inr e ↦ inr (ap suc e) ]

module _ {A : Type 0} (le : A → A → Bool) where
  pub IsSorted-take : (n : ℕ) (xs : List A) → IsSorted le xs → IsSorted le (take n xs)
  IsSorted-take zero xs s = tt
  IsSorted-take (suc n) [] s = tt
  IsSorted-take (suc n) (x ∷ xs) s = (
    All-of_In _ (take n xs) (λ y m. All-In _ y xs s.0 (In-take y n xs m)),
    IsSorted-take n xs s.1,
  )

  pub take-before-drop :
      (n : ℕ) (xs : List A) (a b : A)
      → IsSorted le xs
      → In a (take n xs)
      → In b (drop n xs)
      → le a b ≡ true
  take-before-drop zero xs a b s m k = absurd m
  take-before-drop (suc n) [] a b s m k = absurd m
  take-before-drop (suc n) (x ∷ xs) a b s (inl e) k = rw e (All-In _ b xs s.0 (In-drop b n xs k))
  take-before-drop (suc n) (x ∷ xs) a b s (inr m) k = take-before-drop n xs a b s.1 m k

-- Each element stands in the relation with every later one.
abbrev pub InOrder : {A : Type 0} → (A → A → Type 0) → List A → Type 0
InOrder R [] = Unit
InOrder R (x ∷ xs) = (((y : _) → In y xs → R x y)) × InOrder R xs
