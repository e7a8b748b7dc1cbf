-- ===== src/Operators/Structured/Handlers.antt =====
-- operators/structured.py: the handlers. pydantic's decoding of the arguments is a parameter; what the
-- source's own validators check is run on what it returns.
use infra_joint_planner.Prelude.{
  String, Bool, true, false, not, ◌||◌, List, [], ◌∷◌, ◌++◌, Option, none, some, map, keep, all,
  take, if◌then◌else◌,
}
use infra_joint_planner.Prelude.Text.{str_leb}
use infra_joint_planner.Core.State.{distinct}
use infra_joint_planner.Prelude.Sorting.{sort_by}
use infra_joint_planner.Core.Errors.{
  Exception, Result, ok, err, words, name, names, traverse, value_error, require,
}
use infra_joint_planner.Core.Json.{Json, Fields, end}
use infra_joint_planner.Effects.{Effect, lift, ◌>>=◌, ◌>>◌, for_each}
use infra_joint_planner.Store.Interface.{ArtifactStore}
use infra_joint_planner.Worker.{Handler}
use infra_joint_planner.Operators.Records.{Codec, load_records, produce}
use infra_joint_planner.Operators.Structured.{
  Values, FilterArguments, SelectFieldsArguments, DeriveFieldsArguments, AggregateRecordsArguments,
  TopKArguments, AggregateArtifactsArguments, source_count_matches_operation,
  field_is_present_when_required, single_input, has_field, value_at, is_number, is_string,
  set_field, compare_values, derive,
}
use infra_joint_planner.Operators.Structured.Groups.{aggregate}

-- pydantic's `model_validate`
pub record Parsers : Type 0 where
  pub filter : Fields → Result FilterArguments
  pub select_fields : Fields → Result SelectFieldsArguments
  pub derive_fields : Fields → Result DeriveFieldsArguments
  pub aggregate_records : Fields → Result AggregateRecordsArguments
  pub top_k : Fields → Result TopKArguments
  pub aggregate_artifacts : Fields → Result AggregateArtifactsArguments

-- `{field: record[field] for field in fields}`
abbrev pub project : List String → Fields → Fields → Fields
project [] record' selected = selected
project (f ∷ fs) record' selected = project fs record' (set_field f (value_at f record') selected)

-- The names that a record does not have, of every record.
abbrev pub missing_fields : List String → List Fields → List String
missing_fields fields [] = []
missing_fields fields (record' ∷ records) =
    keep (λ f. not (has_field f record')) fields ++ missing_fields fields records

abbrev no_names : List String → Bool
no_names [] = true
no_names (f ∷ fs) = false

abbrev concatenated : List (List Fields) → List Fields
concatenated [] = []
concatenated (r ∷ rs) = r ++ concatenated rs

abbrev pub no_values : List Json → Bool
no_values [] = true
no_values (v ∷ vs) = false

abbrev ensure : {W : Type 0} → Bool → Exception → Effect W (Unit {0})
ensure b e = lift (require b e)

-- A record that has been compared, before the others that match.
abbrev pub with_match : Fields → Result Bool → Result (List Fields) → Result (List Fields)
with_match record' (err e) rest = err e
with_match record' (ok b) (err e) = err e
with_match record' (ok b) (ok kept) = ok (if b then record' ∷ kept else kept)

module _ (values : Values) where
  -- `[record for record in records if _compare(...)]`
  unfoldable pub keep_matching : FilterArguments → List Fields → Result (List Fields)
  keep_matching arguments [] = ok []
  keep_matching arguments (record' ∷ records) =
      with_match record'
        (compare_values values (value_at arguments.field_name record') arguments.op arguments.value)
        (keep_matching arguments records)

  abbrev pub is_true : Option Bool → Bool
  is_true none = false
  is_true (some b) = b

  -- Whether a record may stand before another in the order of the field, ascending or descending.
  abbrev pub ranks_before : String → Bool → Fields → Fields → Bool
  ranks_before f true a b = not (is_true (values.less (value_at f a) (value_at f b)))
  ranks_before f false a b = not (is_true (values.less (value_at f b) (value_at f a)))

  -- `sorted(records, key=..., reverse=...)[:k]`
  abbrev pub top_records : TopKArguments → List Fields → List Fields
  top_records arguments records =
      take arguments.k (sort_by (ranks_before arguments.field_name arguments.descending) records)

  module _ {S W : Type 0} (parsers : Parsers) (codec : Codec) (store : ArtifactStore S) where
    unfoldable pub filter_records : Handler S W
    filter_records action = do
      arguments ← lift (parsers.filter action.arguments)
      input ← lift (single_input action)
      records ← load_records codec store input
      ensure (all (has_field arguments.field_name) records)
          (value_error (words "filter field is missing: " ∷ name arguments.field_name ∷ []))
      filtered ← lift (keep_matching arguments records)
      produce codec store arguments.output_artifact_id filtered

    unfoldable pub select_fields : Handler S W
    select_fields action = do
      arguments ← lift (parsers.select_fields action.arguments)
      input ← lift (single_input action)
      records ← load_records codec store input
      let missing = sort_by str_leb (distinct (missing_fields arguments.fields records))
      ensure (no_names missing)
          (value_error (words "selected fields are missing: " ∷ names missing ∷ []))
      produce codec store arguments.output_artifact_id
          (map (λ record'. project arguments.fields record' end) records)

    unfoldable pub derive_fields : Handler S W
    derive_fields action = do
      arguments ← lift (parsers.derive_fields action.arguments)
      derivations ← lift (traverse source_count_matches_operation arguments.derivations)
      input ← lift (single_input action)
      records ← load_records codec store input
      derived ← lift (traverse (derive values derivations) records)
      produce codec store arguments.output_artifact_id derived

    unfoldable pub aggregate_records : Handler S W
    aggregate_records action = do
      arguments ← lift (parsers.aggregate_records action.arguments)
      aggregations ← lift (traverse field_is_present_when_required arguments.aggregations)
      input ← lift (single_input action)
      records ← load_records codec store input
      output ← lift (aggregate values arguments records)
      produce codec store arguments.output_artifact_id output

    unfoldable pub top_k_records : Handler S W
    top_k_records action = do
      arguments ← lift (parsers.top_k action.arguments)
      input ← lift (single_input action)
      records ← load_records codec store input
      ensure (all (has_field arguments.field_name) records)
          (value_error (words "top-k field is missing: " ∷ name arguments.field_name ∷ []))
      let ranked = map (value_at arguments.field_name) records
      ensure (no_values ranked || all is_number ranked || all is_string ranked)
          (value_error (words "top-k field values must be consistently numeric or string" ∷ []))
      produce codec store arguments.output_artifact_id (top_records arguments records)

    unfoldable pub aggregate_artifacts : Handler S W
    aggregate_artifacts action = do
      arguments ← lift (parsers.aggregate_artifacts action.arguments)
      ensure (not (no_names action.inputs))
          (value_error (words "aggregate_artifacts requires at least one input" ∷ []))
      parts ← for_each (load_records codec store) action.inputs
      produce codec store arguments.output_artifact_id (concatenated parts)
