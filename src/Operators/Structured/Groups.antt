-- ===== src/Operators/Structured/Groups.antt =====
-- operators/structured.py: the groups of `aggregate_records`, a dictionary from keys to records in the
-- order of the first record of each.
use infra_joint_planner.Prelude.{
  String, Bool, true, false, not, List, [], ◌∷◌, ◌++◌, map, keep, all, if◌then◌else◌, ◌&&◌,
}
use infra_joint_planner.Core.Errors.{
  Result, ok, ◌>>=◌, ◌>>◌, require, traverse, words, names, value_error,
}
use infra_joint_planner.Core.Json.{Json, Fields, end}
use infra_joint_planner.Operators.Structured.{
  Values, Aggregation, AggregateRecordsArguments, has_field, value_at, is_hashable, set_field,
  apply_aggregation,
}

abbrev pub Groups : Type 0
Groups = List (List Json × List Fields)

abbrev pub no_names : List String → Bool
no_names [] = true
no_names (f ∷ fs) = false

abbrev pub key_of : List String → Fields → List Json
key_of group_by record' = map (λ f. value_at f record') group_by

-- What a record needs to be put in a group: the fields, and values that can be keys.
unfoldable pub check_groupable : List String → Fields → Result (Unit {0})
check_groupable group_by record' = do
  let missing = keep (λ f. not (has_field f record')) group_by
  require (no_names missing)
      (value_error (words "group-by fields are missing: " ∷ names missing ∷ []))
  require (all is_hashable (key_of group_by record'))
      (value_error (words "group-by fields must contain scalar values" ∷ []))

-- `dict(zip(group_by, key))`, with the fields of `row` before
abbrev pub zipped : List String → List Json → Fields → Fields
zipped (f ∷ fs) (v ∷ vs) row = zipped fs vs (set_field f v row)
zipped _ _ row = row

module _ (values : Values) where
  abbrev pub same_keys : List Json → List Json → Bool
  same_keys [] [] = true
  same_keys (a ∷ r) (b ∷ s) = values.same_key a b && same_keys r s
  same_keys _ _ = false

  -- `grouped[key].append(record)`
  unfoldable pub add_record : List Json → Fields → Groups → Groups
  add_record key record' [] = (key, record' ∷ []) ∷ []
  add_record key record' ((k, group) ∷ groups) =
      if same_keys k key
      then (k, group ++ record' ∷ []) ∷ groups
      else (k, group) ∷ add_record key record' groups

  -- One more record in its group.
  unfoldable pub group_records : List String → List Fields → Groups → Result Groups
  unfolding add_record check_groupable
  group_records group_by [] groups = ok groups
  group_records group_by (record' ∷ records) groups = do
    check_groupable group_by record'
    group_records group_by records (add_record (key_of group_by record') record' groups)

  -- `if not records and not group_by: grouped[()] = []`
  abbrev pub with_empty_group : List String → List Fields → Groups → Groups
  with_empty_group [] [] groups = ([], []) ∷ []
  with_empty_group _ _ groups = groups

  unfoldable pub aggregate_row : List Fields → List Aggregation → Fields → Result Fields
  aggregate_row group [] row = ok row
  aggregate_row group (a ∷ as') row = do
    value ← apply_aggregation values group a
    aggregate_row group as' (set_field a.output_field value row)

  -- The rows of `aggregate_records`, one of each group.
  unfoldable pub aggregate : AggregateRecordsArguments → List Fields → Result (List Fields)
  unfolding group_records aggregate_row
  aggregate arguments records = do
    grouped ← group_records arguments.group_by records []
    traverse
        (λ (g : List Json × List Fields).
          aggregate_row g.1 arguments.aggregations (zipped arguments.group_by g.0 end))
        (with_empty_group arguments.group_by records grouped)
