-- ===== src/Prelude/Dict.antt =====
-- Python's `dict` with text keys, as an association list in the order of insertion.
use infra_joint_planner.Prelude.Tests.{if◌then◌else◌, Bool-cases}
use infra_joint_planner.Prelude.Lists.{In}
use Prim.Native.String.{String}
use mathlib.Core.Path.{◌≡◌, refl, sym, ap}
use mathlib.Core.Logic.{◌⊎◌, inl, inr}
use mathlib.Core.Bool.{Bool, true, false}
use mathlib.Core.Option.{Option, none, some}
use mathlib.Core.List.{List, [], ◌∷◌, map}
use native.Mathlib.Omega.{arith}
use text.Mathlib.Text.{◌==◌}
use text.Mathlib.TextEquality.{eq_iff}

abbrev pub Dict {ℓ} : Type ℓ → Type ℓ
Dict V = List (String × V)

module _ {ℓ} {V : Type ℓ} where
  -- `d.get(k)`
  unfoldable pub lookup : String → Dict V → Option V
  lookup k [] = none
  lookup k ((j, v) ∷ d) = if j == k then some v else lookup k d

  -- `d[k] = v`: a key that is there keeps its place.
  unfoldable pub insert : String → V → Dict V → Dict V
  insert k v [] = (k, v) ∷ []
  insert k v ((j, w) ∷ d) = if j == k then (j, v) ∷ d else (j, w) ∷ insert k v d

  pub lookup-insert :
      (k j : String) (v : V) (d : Dict V)
      → lookup j (insert k v d) ≡ (if k == j then some v else lookup j d)
  unfolding lookup insert
  lookup-insert k j v [] = refl
  lookup-insert k j v ((i, w) ∷ d) =
      ground (arith, eq_iff i k, eq_iff i j, eq_iff k j, lookup-insert k j v d)

  abbrev pub keys : Dict V → List String
  keys d = map (λ e. e.0) d

  abbrev pub values : Dict V → List V
  values d = map (λ e. e.1) d

  -- `k in d`
  abbrev pub has_key : String → Dict V → Bool
  has_key k d = elim (lookup k d) [ none ↦ false | some _ ↦ true ]

module _ {A : Type 0} (key : A → String) where
  -- `{key(x): x for x in xs}`, after the entries of `d`
  index_onto : Dict A → List A → Dict A
  index_onto d [] = d
  index_onto d (x ∷ xs) = index_onto (insert (key x) x d) xs

  unfoldable pub index_by : List A → Dict A
  unfolding index_onto
  index_by xs = index_onto [] xs

  -- The value at a key is the last element with that key.
  index_onto_from :
      (k : String) (a : A) (d : Dict A) (xs : List A)
      → lookup k (index_onto d xs) ≡ some a
      → (In a xs × (key a ≡ k)) ⊎ (lookup k d ≡ some a)
  unfolding index_onto
  index_onto_from k a d [] h = inr h
  index_onto_from k a d (x ∷ xs) h = elim (index_onto_from k a (insert (key x) x d) xs h) [
    | inl (m, e) ↦ inl (inr m, e)
    | inr h' ↦ here (rw lookup-insert at h') (Bool-cases (key x == k))
  ]
    where
      here :
          (if key x == k then some x else lookup k d) ≡ some a
          → (key x == k) ≡ true ⊎ (key x == k) ≡ false
          → (In a (x ∷ xs) × (key a ≡ k)) ⊎ (lookup k d ≡ some a)
      here e (inl same) =
          let ax : a ≡ x = ground arith in inl (inl ax, rw ax ((eq_iff (key x) k).0 same))
      here e (inr other) = inr (ground arith)

  index_onto_has :
      (k : String) (d : Dict A) (xs : List A)
      → has_key k d ≡ true
      → has_key k (index_onto d xs) ≡ true
  unfolding index_onto
  index_onto_has k d [] h = h
  index_onto_has k d (x ∷ xs) h =
      index_onto_has k (insert (key x) x d) xs (ground (arith, lookup-insert (key x) k x d))

  index_onto_all :
      (a : A) (d : Dict A) (xs : List A) → In a xs → has_key (key a) (index_onto d xs) ≡ true
  unfolding index_onto
  index_onto_all a d [] m = absurd m
  index_onto_all a d (x ∷ xs) (inl e) =
      index_onto_has (key a) (insert (key x) x d) xs
        (ground (arith, lookup-insert (key x) (key a) x d, eq_iff (key x) (key a), ap key (sym e)))
  index_onto_all a d (x ∷ xs) (inr m) = index_onto_all a (insert (key x) x d) xs m

  -- A value of the index is one of the elements, under its own key.
  pub lookup-index_by :
      (k : String) (a : A) (xs : List A) → lookup k (index_by xs) ≡ some a → In a xs × (key a ≡ k)
  unfolding index_by lookup
  lookup-index_by k a xs h = elim (index_onto_from k a [] xs h) [
    | inl found ↦ found
    | inr h' ↦ absurd (cc)
  ]

  -- The key of every element is there.
  pub has_key-index_by : (a : A) (xs : List A) → In a xs → has_key (key a) (index_by xs) ≡ true
  unfolding index_by
  has_key-index_by a xs m = index_onto_all a [] xs m

  In-insert :
      (k : String) (v a : A) (d : Dict A) → In a (values (insert k v d)) → (a ≡ v) ⊎ In a (values d)
  unfolding insert
  In-insert k v a [] (inl e) = inl e
  In-insert k v a [] (inr m) = absurd m
  In-insert k v a ((j, w) ∷ d) m = elim (Bool-cases (j == k)) [
    | inl same ↦ replaced (rw same at m)
    | inr other ↦ later (In-insert k v a d) (rw other at m)
  ]
    where
      replaced : (a ≡ v) ⊎ In a (values d) → (a ≡ v) ⊎ In a (w ∷ values d)
      replaced (inl e) = inl e
      replaced (inr m') = inr (inr m')

      later :
          (In a (values (insert k v d)) → (a ≡ v) ⊎ In a (values d))
          → (a ≡ w) ⊎ In a (values (insert k v d))
          → (a ≡ v) ⊎ In a (w ∷ values d)
      later ih (inl e) = inr (inl e)
      later ih (inr m') = elim (ih m') [ inl e ↦ inl e | inr r ↦ inr (inr r) ]

  In-index_onto :
      (a : A) (d : Dict A) (xs : List A)
      → In a (values (index_onto d xs))
      → In a xs ⊎ In a (values d)
  unfolding index_onto
  In-index_onto a d [] m = inr m
  In-index_onto a d (x ∷ xs) m = elim (In-index_onto a (insert (key x) x d) xs m) [
    | inl found ↦ inl (inr found)
    | inr m' ↦ elim (In-insert (key x) x a d m') [ inl e ↦ inl (inl e) | inr old ↦ inr old ]
  ]

  -- The value of a key is among the values.
  pub lookup-values : (k : String) (a : A) (d : Dict A) → lookup k d ≡ some a → In a (values d)
  unfolding lookup
  lookup-values k a [] h = cc
  lookup-values k a ((j, v) ∷ d) h = elim (Bool-cases (j == k)) [
    | inl e ↦ let h' : some v ≡ some a = rw e at h in inl (cc)
    | inr e ↦ inr (lookup-values k a d (rw e at h))
  ]

  -- Every value of the index is one of the elements.
  pub In-values : (a : A) (xs : List A) → In a (values (index_by xs)) → In a xs
  unfolding index_by
  In-values a xs m = elim (In-index_onto a [] xs m) [ inl found ↦ found | inr n ↦ absurd n ]
