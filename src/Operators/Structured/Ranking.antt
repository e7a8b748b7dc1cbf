-- ===== src/Operators/Structured/Ranking.antt =====
-- operators/structured.py: the order of `top_k_records`, where Python's `<` compares the values.
use mathlib.Core.List.{Perm}
use mathlib.Core.Path.{subst}
use infra_joint_planner.Prelude.{
  ℕ, ◌≡◌, refl, sym, ◌⊎◌, inl, inr, Bool, true, false, not, some, String, List, [], ◌∷◌, ◌++◌, In,
  take, length, all, map, All-In, All-of_In, all-In, map-In, ◌||◌, Bool-cases, arith,
}
use infra_joint_planner.Prelude.Sorting.{
  sort_by, sort_by-perm, In-sort_by, IsSorted, IsOrderOn, sort_by-IsSorted_on,
}
use infra_joint_planner.Core.Json.{Json, Fields}
use infra_joint_planner.Operators.Structured.{Values, value_at, is_number, is_string}
use infra_joint_planner.Operators.Structured.Handlers.{ranks_before, is_true, no_values}
use infra_joint_planner.Operators.Structured.Prefixes.{
  InOrder, drop, take-drop, In-take, In-drop, all_or_full, IsSorted-take, take-before-drop,
}

-- `less` is a comparison of the values of `Q`: it is defined, it is not both ways, and where one value is
-- not less than another, and that not less than a third, the first is not less than the third.
pub record IsComparison (values : Values) (Q : Json → Type 0) : Type 0 where
  pub defined : (v w : Json) → Q v → Q w → (r : Bool) × (values.less v w ≡ some r)
  pub asym : (v w : Json) → Q v → Q w → values.less v w ≡ some true → values.less w v ≡ some false
  pub trans :
      (v w x : Json)
      → Q v
      → Q w
      → Q x
      → values.less v w ≡ some false
      → values.less w x ≡ some false
      → values.less v x ≡ some false

module _ (values : Values) (f : String) where
  -- One record may stand before another: descending, the first's value is not less than the
  -- second's, and ascending, the second's is not less than the first's.
  abbrev pub MayPrecede : Bool → Fields → Fields → Type 0
  MayPrecede true a b = values.less (value_at f a) (value_at f b) ≡ some false
  MayPrecede false a b = values.less (value_at f b) (value_at f a) ≡ some false

  -- The chosen records are in order, the others stand behind each of them, together they are the
  -- given ones, and others are left out only where `k` are chosen.
  pub record IsTop (descending : Bool) (k : ℕ) (given chosen : List Fields) : Type 0 where
    pub others : List Fields
    pub same : Perm (chosen ++ others) given
    pub ranked : InOrder (MayPrecede descending) chosen
    pub above : (a b : Fields) → In a chosen → In b others → MayPrecede descending a b
    pub full : (others ≡ []) ⊎ (length chosen ≡ k)

  module _ (Q : Json → Type 0) (comparison : IsComparison values Q) where
    of_not :
        (v w : Json)
        → Q v
        → Q w
        → not (is_true values (values.less v w)) ≡ true
        → values.less v w ≡ some false
    of_not v w p q h = read (comparison.defined v w p q)
      where
        read : (r : Bool) × (values.less v w ≡ some r) → values.less v w ≡ some false
        read (false, e) = e
        read (true, e) = absurd (cc (rw e at h))

    to_not :
        (v w : Json) → values.less v w ≡ some false → not (is_true values (values.less v w)) ≡ true
    to_not v w e = rw e refl

    of_rank :
        (d : Bool) (a b : Fields)
        → Q (value_at f a)
        → Q (value_at f b)
        → ranks_before values f d a b ≡ true
        → MayPrecede d a b
    of_rank true a b p q h = of_not _ _ p q h
    of_rank false a b p q h = of_not _ _ q p h

    one_way :
        (v w : Json)
        → Q v
        → Q w
        → (not (is_true values (values.less v w)) ≡ true)
          ⊎ (not (is_true values (values.less w v)) ≡ true)
    one_way v w p q = read (comparison.defined v w p q)
      where
        read :
            (r : Bool) × (values.less v w ≡ some r)
            → (not (is_true values (values.less v w)) ≡ true)
              ⊎ (not (is_true values (values.less w v)) ≡ true)
        read (false, e) = inl (to_not v w e)
        read (true, e) = inr (to_not w v (comparison.asym v w p q e))

    chained :
        (v w x : Json)
        → Q v
        → Q w
        → Q x
        → not (is_true values (values.less v w)) ≡ true
        → not (is_true values (values.less w x)) ≡ true
        → not (is_true values (values.less v x)) ≡ true
    chained v w x p q r h k =
        to_not v x (comparison.trans v w x p q r (of_not v w p q h) (of_not w x q r k))

    ranks_before-IsOrderOn :
        (d : Bool) → IsOrderOn (λ r. Q (value_at f r)) (ranks_before values f d)
    ranks_before-IsOrderOn true = record {
      total = λ a b p q. one_way (value_at f a) (value_at f b) p q;
      trans = λ a b c p q r h k. chained (value_at f a) (value_at f b) (value_at f c) p q r h k;
    }
    ranks_before-IsOrderOn false = record {
      total = λ a b p q. one_way (value_at f b) (value_at f a) q p;
      trans = λ a b c p q r h k. chained (value_at f c) (value_at f b) (value_at f a) r q p k h;
    }

    InOrder-of :
        (d : Bool) (xs : List Fields)
        → ((r : Fields) → In r xs → Q (value_at f r))
        → IsSorted (ranks_before values f d) xs
        → InOrder (MayPrecede d) xs
    InOrder-of d [] q s = tt
    InOrder-of d (x ∷ xs) q s = (
      (λ y m. of_rank d x y (q x (inl refl)) (q y (inr m)) (All-In _ y xs s.0 m)),
      InOrder-of d xs (λ r m. q r (inr m)) s.1,
    )

    sorted-IsTop :
        (d : Bool) (k : ℕ) (given : List Fields)
        → ((r : Fields) → In r given → Q (value_at f r))
        → IsTop d k given (take k (sort_by (ranks_before values f d) given))
    sorted-IsTop d k given q =
        let le = ranks_before values f d in
        let sorted = sort_by le given in
        let p = sort_by-perm le given in
        let s =
          sort_by-IsSorted_on le (λ r. Q (value_at f r)) (ranks_before-IsOrderOn d) given
            (All-of_In _ given q) in
        let qs : (r : Fields) → In r sorted → Q (value_at f r) =
          λ r m. q r (In-sort_by le r given m) in
        record {
          others = drop k sorted;
          same = subst (λ ys. Perm ys given) (sym (take-drop k sorted)) p;
          ranked =
              InOrder-of d (take k sorted) (λ r m. qs r (In-take r k sorted m))
                (IsSorted-take le k sorted s);
          above = λ a b m n.
              of_rank d a b (qs a (In-take a k sorted m)) (qs b (In-drop b k sorted n))
                (take-before-drop le k sorted a b s m n);
          full = all_or_full k sorted;
        }

  -- The values are all numbers, or all texts, or there are none.
  abbrev pub AreUniform : List Fields → Type 0
  AreUniform records =
      (records ≡ [])
      ⊎ ((r : Fields) → In r records → is_number (value_at f r) ≡ true)
      ⊎ ((r : Fields) → In r records → is_string (value_at f r) ≡ true)

  no_records : (records : List Fields) → no_values (map (value_at f) records) ≡ true → records ≡ []
  no_records [] h = refl
  no_records (r ∷ rs) h = absurd (cc)

  pub guard-AreUniform :
      (records : List Fields)
      → (no_values (map (value_at f) records)
          || all is_number (map (value_at f) records)
          || all is_string (map (value_at f) records))
        ≡ true
      → AreUniform records
  guard-AreUniform records h =
      let ranked = map (value_at f) records in
      elim (Bool-cases (no_values ranked)) [
        | inl a ↦ inl (no_records records a)
        | inr a ↦ elim (Bool-cases (all is_number ranked)) [
          | inl b ↦ inr (
              inl λ r m. all-In (value_at f r) is_number ranked b (map-In r (value_at f) records m))
          | inr b ↦
              let c : all is_string ranked ≡ true = ground arith in
              inr (
                inr
                  λ r m. all-In (value_at f r) is_string ranked c (map-In r (value_at f) records m))
        ]
      ]

  module _ (P : Json → Type 0) (numbers : IsComparison values (λ v. (is_number v ≡ true) × P v))
      (texts : IsComparison values (λ v. (is_string v ≡ true) × P v)) where
    pub uniform-IsTop :
        (d : Bool) (k : ℕ) (records : List Fields)
        → ((r : Fields) → In r records → P (value_at f r))
        → AreUniform records
        → IsTop d k records (take k (sort_by (ranks_before values f d) records))
    uniform-IsTop d k records p (inl e) =
        sorted-IsTop (λ v. (is_number v ≡ true) × P v) numbers d k records
          λ r m. absurd (subst (In r) e m)
    uniform-IsTop d k records p (inr (inl n)) =
        sorted-IsTop (λ v. (is_number v ≡ true) × P v) numbers d k records λ r m. (n r m, p r m)
    uniform-IsTop d k records p (inr (inr n)) =
        sorted-IsTop (λ v. (is_string v ≡ true) × P v) texts d k records λ r m. (n r m, p r m)
