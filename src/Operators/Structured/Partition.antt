-- ===== src/Operators/Structured/Partition.antt =====
-- operators/structured.py: the groups of `aggregate_records` and the records that they are made of.
use mathlib.Core.List.{append-nil, append_assoc}
use mathlib.Core.Path.{subst}
use infra_joint_planner.Prelude.{
  String, ◌≡◌, refl, sym, ap, ◌∙◌, ◌⊎◌, inl, inr, Bool, true, false, List, [], ◌∷◌, ◌++◌, keep, In,
  All, In-append_right, Bool-cases, arith,
}
use infra_joint_planner.Core.Errors.{Result, ok, err, ◌>>◌}
use infra_joint_planner.Core.Json.{Json, Fields}
use infra_joint_planner.Operators.Structured.{Values}
use infra_joint_planner.Operators.Structured.Groups.{
  Groups, same_keys, add_record, key_of, group_records, check_groupable,
}

-- What a dictionary relies on: the equality of keys is an equivalence.
pub record IsEquivalence (same : Json → Json → Bool) : Type 0 where
  pub reflexive : (a : Json) → same a a ≡ true
  pub symmetric : (a b : Json) → same a b ≡ true → same b a ≡ true
  pub transitive : (a b c : Json) → same a b ≡ true → same b c ≡ true → same a c ≡ true

passed :
    (m : Result (Unit {0})) (n : Result Groups) {groups : Groups}
    → (m >> n) ≡ ok groups
    → n ≡ ok groups
passed (ok u) n h = h
passed (err e) n h = cc

module _ (values : Values) (group_by : List String) where
  -- The records with a key, in their order.
  abbrev pub with_key : List Json → List Fields → List Fields
  with_key k records = keep (λ r. same_keys values k (key_of group_by r)) records

  -- Each group is the records with its key, in their order.
  abbrev pub Each : List Fields → Groups → Type 0
  Each records groups = All (λ (g : List Json × List Fields). g.1 ≡ with_key g.0 records) groups

  -- No two groups have the same key.
  abbrev pub Apart : Groups → Type 0
  Apart [] = Unit
  Apart (g ∷ groups) =
      All (λ (h : List Json × List Fields). same_keys values g.0 h.0 ≡ false) groups × Apart groups

  -- A group has the record's key.
  abbrev pub Covers : Groups → Fields → Type 0
  Covers [] r = ⊥
  Covers (g ∷ groups) r = (same_keys values g.0 (key_of group_by r) ≡ true) ⊎ Covers groups r

  -- No group is empty.
  abbrev pub Occupied : Groups → Type 0
  Occupied groups = All (λ (g : List Json × List Fields). (r : Fields) × In r g.1) groups

  pub record IsPartition (records : List Fields) (groups : Groups) : Type 0 where
    pub each : Each records groups
    pub apart : Apart groups
    pub covered : (d : Fields) → In d records → Covers groups d
    pub occupied : Occupied groups

module _ (values : Values) (eq : IsEquivalence values.same_key) where
  same_keys_refl : (k : List Json) → same_keys values k k ≡ true
  same_keys_refl [] = refl
  same_keys_refl (a ∷ k) = rw (eq.reflexive a) (same_keys_refl k)

  same_keys_sym : (j k : List Json) → same_keys values j k ≡ true → same_keys values k j ≡ true
  same_keys_sym [] [] h = refl
  same_keys_sym (a ∷ j) [] h = h
  same_keys_sym [] (b ∷ k) h = h
  same_keys_sym (a ∷ j) (b ∷ k) h =
      ground (arith, eq.symmetric a b (ground arith), same_keys_sym j k (ground arith))

  same_keys_trans :
      (i j k : List Json)
      → same_keys values i j ≡ true
      → same_keys values j k ≡ true
      → same_keys values i k ≡ true
  same_keys_trans [] [] k h g = g
  same_keys_trans [] (b ∷ j) k h g = absurd (cc)
  same_keys_trans (a ∷ i) [] k h g = absurd (cc)
  same_keys_trans (a ∷ i) (b ∷ j) [] h g = absurd (cc)
  same_keys_trans (a ∷ i) (b ∷ j) (c ∷ k) h g = ground (
    arith,
    eq.transitive a b c (ground arith) (ground arith),
    same_keys_trans i j k (ground arith) (ground arith),
  )

  -- A key that is equal to one of two different keys differs from the other.
  same_keys_other :
      (i j k : List Json)
      → same_keys values i k ≡ true
      → same_keys values i j ≡ false
      → same_keys values j k ≡ false
  same_keys_other i j k h d = elim (Bool-cases (same_keys values j k)) [
    | inr e ↦ e
    | inl e ↦ absurd (both (same_keys_trans i k j h (same_keys_sym j k e)))
  ]
    where
      both : same_keys values i j ≡ true → ⊥
      both e = cc

  module _ (group_by : List String) where
    with_key-append_same :
        (k : List Json) (r : Fields) (done : List Fields)
        → same_keys values k (key_of group_by r) ≡ true
        → with_key values group_by k (done ++ r ∷ []) ≡ with_key values group_by k done ++ r ∷ []
    unfolding keep
    with_key-append_same k r [] h = rw h refl
    with_key-append_same k r (d ∷ done) h =
        elim (Bool-cases (same_keys values k (key_of group_by d))) [
          | inl e ↦ rw e (ap (λ x. d ∷ x) (with_key-append_same k r done h))
          | inr e ↦ rw e (with_key-append_same k r done h)
        ]

    with_key-append_other :
        (k : List Json) (r : Fields) (done : List Fields)
        → same_keys values k (key_of group_by r) ≡ false
        → with_key values group_by k (done ++ r ∷ []) ≡ with_key values group_by k done
    unfolding keep
    with_key-append_other k r [] h = rw h refl
    with_key-append_other k r (d ∷ done) h =
        elim (Bool-cases (same_keys values k (key_of group_by d))) [
          | inl e ↦ rw e (ap (λ x. d ∷ x) (with_key-append_other k r done h))
          | inr e ↦ rw e (with_key-append_other k r done h)
        ]

    unaffected :
        (key : List Json) (r : Fields) (done : List Fields) (k : List Json) (groups : Groups)
        → key_of group_by r ≡ key
        → same_keys values k key ≡ true
        → All (λ (h : List Json × List Fields). same_keys values k h.0 ≡ false) groups
        → Each values group_by done groups
        → Each values group_by (done ++ r ∷ []) groups
    unaffected key r done k [] e h a s = tt
    unaffected key r done k ((j, g) ∷ groups) e h a s = (
      s.0 ∙ sym (with_key-append_other j r done (rw e (same_keys_other k j key h a.0))),
      unaffected key r done k groups e h a.1 s.1,
    )

    none_with :
        (key : List Json) (done : List Fields)
        → ((d : Fields) → In d done → same_keys values key (key_of group_by d) ≡ false)
        → with_key values group_by key done ≡ []
    unfolding keep
    none_with key [] h = refl
    none_with key (d ∷ done) h = rw (h d (inl refl)) (none_with key done (λ x m. h x (inr m)))

    -- The records whose key is `key` have their group among `groups`.
    Located : List Json → List Fields → Groups → Type 0
    Located key done groups =
        (d : Fields)
        → In d done
        → same_keys values key (key_of group_by d) ≡ true
        → Covers values group_by groups d

    Located-rest :
        (key : List Json) (done : List Fields) (k : List Json) (g : List Fields) (groups : Groups)
        → same_keys values k key ≡ false
        → Located key done ((k, g) ∷ groups)
        → Located key done groups
    unfolding Located
    Located-rest key done k g groups h l d m e = elim (l d m e) [
      | inl c ↦ absurd (both (same_keys_trans k (key_of group_by d) key c (same_keys_sym key _ e)))
      | inr c ↦ c
    ]
      where
        both : same_keys values k key ≡ true → ⊥
        both x = cc

    not-Located :
        (key : List Json) (done : List Fields)
        → Located key done []
        → (d : Fields) → In d done
        → same_keys values key (key_of group_by d) ≡ false
    unfolding Located
    not-Located key done l d m = elim (Bool-cases (same_keys values key (key_of group_by d))) [
      | inl e ↦ absurd (l d m e)
      | inr e ↦ e
    ]

    add_record-Each :
        (key : List Json) (r : Fields) (done : List Fields) (groups : Groups)
        → key_of group_by r ≡ key
        → Located key done groups
        → Apart values group_by groups
        → Each values group_by done groups
        → Each values group_by (done ++ r ∷ []) (add_record values key r groups)
    unfolding add_record
    add_record-Each key r done [] e l a s = (
      sym (
          with_key-append_same key r done (rw e (same_keys_refl key))
          ∙ ap (λ x. x ++ r ∷ []) (none_with key done (not-Located key done l))),
      tt,
    )
    add_record-Each key r done ((k, g) ∷ groups) e l a s =
        elim (Bool-cases (same_keys values k key)) [
          | inl h ↦ rw h (
            ap (λ x. x ++ r ∷ []) s.0 ∙ sym (with_key-append_same k r done (rw e h)),
            unaffected key r done k groups e h a.0 s.1,
          )
          | inr h ↦ rw h (
            s.0 ∙ sym (with_key-append_other k r done (rw e h)),
            add_record-Each key r done groups e (Located-rest key done k g groups h l) a.1 s.1,
          )
        ]

    add_record-apart_from :
        (j key : List Json) (r : Fields) (groups : Groups)
        → same_keys values j key ≡ false
        → All (λ (h : List Json × List Fields). same_keys values j h.0 ≡ false) groups
        → All
            (λ (h : List Json × List Fields). same_keys values j h.0 ≡ false)
            (add_record values key r groups)
    unfolding add_record
    add_record-apart_from j key r [] h a = (h, tt)
    add_record-apart_from j key r ((k, g) ∷ groups) h a =
        elim (Bool-cases (same_keys values k key)) [
          | inl e ↦ rw e (a.0, a.1)
          | inr e ↦ rw e (a.0, add_record-apart_from j key r groups h a.1)
        ]

    add_record-Apart :
        (key : List Json) (r : Fields) (groups : Groups)
        → Apart values group_by groups
        → Apart values group_by (add_record values key r groups)
    unfolding add_record
    add_record-Apart key r [] a = (tt, tt)
    add_record-Apart key r ((k, g) ∷ groups) a = elim (Bool-cases (same_keys values k key)) [
      | inl e ↦ rw e (a.0, a.1)
      | inr e ↦ rw e (add_record-apart_from k key r groups e a.0, add_record-Apart key r groups a.1)
    ]

    add_record-Covers :
        (key : List Json) (r d : Fields) (groups : Groups)
        → Covers values group_by groups d
        → Covers values group_by (add_record values key r groups) d
    unfolding add_record
    add_record-Covers key r d [] c = absurd c
    add_record-Covers key r d ((k, g) ∷ groups) c = elim (Bool-cases (same_keys values k key)) [
      | inl e ↦ rw e c
      | inr e ↦ rw e (elim c [ inl x ↦ inl x | inr x ↦ inr (add_record-Covers key r d groups x) ])
    ]

    add_record-Covers_new :
        (key : List Json) (r : Fields) (groups : Groups)
        → key_of group_by r ≡ key
        → Covers values group_by (add_record values key r groups) r
    unfolding add_record
    add_record-Covers_new key r [] e = inl (rw e (same_keys_refl key))
    add_record-Covers_new key r ((k, g) ∷ groups) e = elim (Bool-cases (same_keys values k key)) [
      | inl h ↦ rw h (inl (rw e h))
      | inr h ↦ rw h (inr (add_record-Covers_new key r groups e))
    ]

    add_record-Occupied :
        (key : List Json) (r : Fields) (groups : Groups)
        → Occupied values group_by groups
        → Occupied values group_by (add_record values key r groups)
    unfolding add_record
    add_record-Occupied key r [] o = ((r, inl refl), tt)
    add_record-Occupied key r ((k, g) ∷ groups) o = elim (Bool-cases (same_keys values k key)) [
      | inl h ↦ rw h ((r, In-append_right r g (r ∷ []) (inl refl)), o.1)
      | inr h ↦ rw h (o.0, add_record-Occupied key r groups o.1)
    ]

    In-end : (d r : Fields) (done : List Fields) → In d (done ++ r ∷ []) → (d ≡ r) ⊎ In d done
    In-end d r [] (inl e) = inl e
    In-end d r [] (inr m) = absurd m
    In-end d r (x ∷ done) (inl e) = inr (inl e)
    In-end d r (x ∷ done) (inr m) = elim (In-end d r done m) [ inl e ↦ inl e | inr k ↦ inr (inr k) ]

    add_record-IsPartition :
        (r : Fields) (done : List Fields) (groups : Groups)
        → IsPartition values group_by done groups
        → IsPartition values group_by
            (done ++ r ∷ [])
            (add_record values (key_of group_by r) r groups)
    unfolding Located
    add_record-IsPartition r done groups p = record {
      each =
          add_record-Each (key_of group_by r) r done groups refl (λ d m e. p.covered d m) p.apart
            p.each;
      apart = add_record-Apart (key_of group_by r) r groups p.apart;
      covered = λ d m. elim (In-end d r done m) [
        | inl e ↦
            subst (Covers values group_by (add_record values (key_of group_by r) r groups)) (sym e)
              (add_record-Covers_new (key_of group_by r) r groups refl)
        | inr k ↦ add_record-Covers (key_of group_by r) r d groups (p.covered d k)
      ];
      occupied = add_record-Occupied (key_of group_by r) r groups p.occupied;
    }

    grouped-IsPartition :
        (records done : List Fields) (groups result : Groups)
        → IsPartition values group_by done groups
        → group_records values group_by records groups ≡ ok result
        → IsPartition values group_by (done ++ records) result
    unfolding group_records
    grouped-IsPartition [] done groups result p h =
        let e : groups ≡ result = cc in
        subst (IsPartition values group_by (done ++ [])) e
          (subst (λ d. IsPartition values group_by d groups) (sym (append-nil done)) p)
    grouped-IsPartition (r ∷ records) done groups result p h =
        subst (λ d. IsPartition values group_by d result) (append_assoc done (r ∷ []) records)
          (grouped-IsPartition records (done ++ r ∷ [])
            (add_record values (key_of group_by r) r groups) result
            (add_record-IsPartition r done groups p) (passed (check_groupable group_by r) _ h))

    -- The groups that `aggregate_records` makes are a partition of the records by their keys: each
    -- group is the records with its key, all of them and in their order, no two groups have the same
    -- key, no group is empty and every record has its group. The equality of keys has to be an
    -- equivalence.
    pub group_records-IsPartition :
        (records : List Fields) (groups : Groups)
        → group_records values group_by records [] ≡ ok groups
        → IsPartition values group_by records groups
    group_records-IsPartition records groups h =
        grouped-IsPartition records [] [] groups
          (record { each = tt; apart = tt; covered = λ d m. absurd m; occupied = tt }) h
