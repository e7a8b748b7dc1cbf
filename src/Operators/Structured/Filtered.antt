-- ===== src/Operators/Structured/Filtered.antt =====
-- operators/structured.py: what the handlers leave in the store.
use mathlib.Core.Path.{subst}
use infra_joint_planner.Prelude.{
  String, ◌≡◌, refl, sym, ap, Bool, true, false, List, [], ◌∷◌, keep, all, if◌then◌else◌,
}
use infra_joint_planner.Core.Errors.{Exception, Result, ok, err, require}
use infra_joint_planner.Core.Json.{Json, arr, Fields}
use infra_joint_planner.Core.Action.{SemanticAction}
use infra_joint_planner.Effects.{Effect, pure, lift, for_each, continue}
use infra_joint_planner.Store.{StoredArtifact}
use infra_joint_planner.Store.Interface.{ArtifactStore, IsLawful}
use infra_joint_planner.Worker.{Held}
use infra_joint_planner.Operators.Records.{
  Codec, ProducedArtifact, array_of, dump_produced, load_json, load_records, store_json, produce,
  decoded_json, records_in,
}
use infra_joint_planner.Operators.Records.Roundtrip.{StoredJson, store_json-StoredJson}
use infra_joint_planner.Operators.Structured.{
  Values, FilterArguments, single_input, has_field, value_at, compare_values,
}
use infra_joint_planner.Operators.Structured.Handlers.{
  Parsers, with_match, keep_matching, filter_records,
}

abbrev pub holds : Result Bool → Bool
holds (ok b) = b
holds (err e) = false

module _ (values : Values) where
  -- The comparison of a record's field with the value of the arguments.
  abbrev pub compared : FilterArguments → Fields → Result Bool
  compared arguments r =
      compare_values values (value_at arguments.field_name r) arguments.op arguments.value

  abbrev pub is_match : FilterArguments → Fields → Bool
  is_match arguments r = holds (compared arguments r)

  with_match-keep :
      (r : Fields) (c : Result Bool) (rest : Result (List Fields)) (more kept : List Fields)
      → ((m : List Fields) → rest ≡ ok m → m ≡ more)
      → with_match r c rest ≡ ok kept
      → kept ≡ (if holds c then r ∷ more else more)
  with_match-keep r (err e) rest more kept k h = cc
  with_match-keep r (ok b) (err e) more kept k h = cc
  with_match-keep r (ok true) (ok m) more kept k h = let e = k m refl in cc
  with_match-keep r (ok false) (ok m) more kept k h = let e = k m refl in cc

  keep_matching-keep :
      (arguments : FilterArguments) (records kept : List Fields)
      → keep_matching values arguments records ≡ ok kept
      → kept ≡ keep (is_match arguments) records
  unfolding keep_matching keep
  keep_matching-keep arguments [] kept h = cc
  keep_matching-keep arguments (r ∷ records) kept h =
      with_match-keep r (compared arguments r) (keep_matching values arguments records)
        (keep (is_match arguments) records) kept (keep_matching-keep arguments records) h

pub require-true : (b : Bool) (e : Exception) (u : Unit {0}) → require b e ≡ ok u → b ≡ true
require-true true e u h = refl
require-true false e u h = cc

module _ {S W : Type 0} where
  -- The computation has returned something of which `P` holds, or has left the store as it was.
  abbrev pub Leaves : {A : Type 0} → S → (A → Held S W → Type 0) → Result A × Held S W → Type 0
  Leaves s P (ok a, h) = P a h
  Leaves s P (err e, h) = h.store ≡ s

  -- What is known of a result may be put in other words.
  pub weaken :
      {A : Type 0} (s : S) (P Q : A → Held S W → Type 0) (r : Result A × Held S W)
      → ((a : A) (h : Held S W) → P a h → Q a h)
      → Leaves s P r
      → Leaves s Q r
  weaken s P Q (ok a, h) k l = k a h l
  weaken s P Q (err e, h) k l = l

  pub after_reading :
      {A B : Type 0} (P : B → Held S W → Type 0) (h : Held S W) (r : Result A × Held S W)
      (f : A → Effect (Held S W) B)
      → r.1 ≡ h
      → ((a : A) → r.0 ≡ ok a → Leaves h.store P (f a h))
      → Leaves h.store P (continue r f)
  after_reading P h (ok a, h') f e k = subst (λ g. Leaves h.store P (f a g)) (sym e) (k a refl)
  after_reading P h (err x, h') f e k = ap (λ g. g.store) e

  continue-reads :
      {A B : Type 0} (r : Result A × Held S W) (f : A → Effect (Held S W) B) (h : Held S W)
      → r.1 ≡ h
      → ((a : A) → (f a h).1 ≡ h)
      → (continue r f).1 ≡ h
  continue-reads (ok a, h') f h e k = subst (λ g. (f a g).1 ≡ h) (sym e) (k a)
  continue-reads (err x, h') f h e k = e

  for_each-reads :
      {A B : Type 0} (f : A → Effect (Held S W) B) (xs : List A) (h : Held S W)
      → ((a : A) → (f a h).1 ≡ h)
      → (for_each f xs h).1 ≡ h
  unfolding for_each
  for_each-reads f [] h k = refl
  for_each-reads f (x ∷ xs) h k =
      continue-reads (f x h) _ h (k x)
        λ y. continue-reads (for_each f xs h) _ h (for_each-reads f xs h k) (λ ys. refl)

  module _ (codec : Codec) (store : ArtifactStore S) where
    reads-lift :
        {A B : Type 0} (r : Result A × Held S W) (g : A → Result B) (h : Held S W)
        → r.1 ≡ h
        → (continue r (λ a. lift (g a))).1 ≡ h
    reads-lift (ok a, h') g h e = e
    reads-lift (err x, h') g h e = e

    pub load_records-reads : (i : String) (h : Held S W) → (load_records codec store i h).1 ≡ h
    unfolding load_records load_json
    load_records-reads i h =
        reads-lift (load_json codec store i h) (records_in i) h
          (reads-lift (store.get i h.store, h) (decoded_json codec i) h refl)

    -- The store has the records, encoded, under the identifier.
    abbrev pub Produced : String → List Fields → Held S W → Type 0
    Produced i records h =
        (a : StoredArtifact) × (store.get i h.store ≡ ok a)
        × (a.content ≡ codec.dumps (arr (array_of records)))
        × (a.media_type ≡ "application/json")

    pub produce-Leaves :
        (lawful : IsLawful codec.sha256 store) (i : String) (records : List Fields) (h : Held S W)
        → Leaves h.store (λ output. Produced i records) (produce codec store i records h)
    produce-Leaves lawful i records h =
        dumped (store_json codec store i (arr (array_of records)) h)
          (store_json-StoredJson codec store lawful i (arr (array_of records)) h)
      where
        dumped :
            (r : Result ProducedArtifact × Held S W)
            → StoredJson codec store lawful h.store i (codec.dumps (arr (array_of records))) r
            → Leaves h.store
                (λ output. Produced i records)
                (continue r (λ produced. pure (dump_produced produced)))
        dumped (ok p, h') k = k
        dumped (err e, h') k = k

  module _ (values : Values) (parsers : Parsers) (codec : Codec) (store : ArtifactStore S)
      (lawful : IsLawful codec.sha256 store) where
    -- What `filter_records` has read and stored when it returns.
    pub record IsFiltered (action : SemanticAction) (h h' : Held S W) : Type 0 where
      pub arguments : FilterArguments
      pub input : String
      pub records : List Fields
      pub parsed : parsers.filter action.arguments ≡ ok arguments
      pub one_input : single_input action ≡ ok input
      pub loaded : (load_records codec store input h).0 ≡ ok records
      pub present : all (has_field arguments.field_name) records ≡ true
      pub stored :
          Produced codec store arguments.output_artifact_id
            (keep (is_match values arguments) records)
            h'

    -- When `filter_records` returns, the store has, under the identifier of the arguments, the
    -- input's records whose field matches, all of them and in their order, and each record has the
    -- field. When it raises, the store is as it was. The store has to be lawful.
    pub filter_records-IsFiltered :
        (action : SemanticAction) (h : Held S W)
        → Leaves h.store
            (λ output. IsFiltered action h)
            (filter_records values parsers codec store action h)
    unfolding filter_records
    filter_records-IsFiltered action h =
        let P : Json → Held S W → Type 0 = λ output. IsFiltered action h in
        after_reading P h (parsers.filter action.arguments, h) _ refl
          λ arguments parsed.
            after_reading P h (single_input action, h) _ refl
              λ input one_input.
                after_reading P h (load_records codec store input h) _
                  (load_records-reads codec store input h)
                  λ records loaded.
                    after_reading P h (require (all (has_field arguments.field_name) records) _, h)
                      _ refl
                      λ u present.
                        after_reading P h (keep_matching values arguments records, h) _ refl
                          λ kept matched.
                            weaken h.store
                              (λ output. Produced codec store arguments.output_artifact_id kept) P
                              (produce codec store arguments.output_artifact_id kept h)
                              (λ output h' stored. record {
                                arguments = arguments;
                                input = input;
                                records = records;
                                parsed = parsed;
                                one_input = one_input;
                                loaded = loaded;
                                present = require-true _ _ u present;
                                stored =
                                    subst
                                      (λ rs.
                                        Produced codec store arguments.output_artifact_id rs h')
                                      (keep_matching-keep values arguments records kept matched)
                                      stored;
                              })
                              (produce-Leaves codec store lawful arguments.output_artifact_id kept
                                h)
