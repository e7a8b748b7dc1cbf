-- ===== src/Operators/Structured.antt =====
-- operators/structured.py: the arguments of the operators on records, with what their validators check,
-- and the computations on records. Python's operations on the values of a JSON document, where floats
-- occur in them, are a parameter.
pub mod Groups
pub mod Handlers
pub mod Prefixes
pub mod Ranking
pub mod Selection
pub mod Partition
pub mod Filtered
mod Tests
use infra_joint_planner.Prelude.{
  ℕ, zero, suc, String, Bool, true, false, not, ◌&&◌, ◌||◌, List, [], ◌∷◌, Option, none, some,
  length, take, map, keep, any, all, eqb, leb, ltb, ◌==◌, if◌then◌else◌, first,
}
use infra_joint_planner.Prelude.Sorting.{sort_by}
use infra_joint_planner.Core.Errors.{
  Exception, Result, ok, err, ◌>>=◌, ◌>>◌, require, traverse, or_raise, words, name, names,
  value_error, validation_error, other_error, type_error,
}
use infra_joint_planner.Core.Action.{SemanticAction, nonempty}
use infra_joint_planner.Core.Json.{
  Float, Json, null, bool, int, float, str, arr, obj, Items, nil, cons, Fields, end, field,
  get_field,
}

pub data ComparisonOperator : Type 0 where
  eq ne lt lte gt gte contains : ComparisonOperator

pub record FilterArguments : Type 0 where
  pub field_name : String
  pub op : ComparisonOperator
  pub value : Json
  pub output_artifact_id : String

pub record SelectFieldsArguments : Type 0 where
  pub fields : List String
  pub output_artifact_id : String

pub data DeriveOperation : Type 0 where
  add subtract multiply divide : DeriveOperation

pub record Derivation : Type 0 where
  pub target : String
  pub operation : DeriveOperation
  pub sources : List String

abbrev two_sources : DeriveOperation → Bool
two_sources subtract = true
two_sources divide = true
two_sources _ = false

unfoldable pub source_count_matches_operation : Derivation → Result Derivation
source_count_matches_operation d = do
  require (not (two_sources d.operation && not (eqb (length d.sources) 2)))
      (validation_error (words "requires exactly two sources" ∷ []))
  ok d

pub record DeriveFieldsArguments : Type 0 where
  pub derivations : List Derivation
  pub output_artifact_id : String

pub data AggregateOperation : Type 0 where
  count sum min max avg : AggregateOperation

pub record Aggregation : Type 0 where
  pub operation : AggregateOperation
  pub output_field : String
  pub field_name : Option String

abbrev counts : AggregateOperation → Bool
counts count = true
counts _ = false

abbrev is_given : Option String → Bool
is_given none = false
is_given (some f) = true

unfoldable pub field_is_present_when_required : Aggregation → Result Aggregation
field_is_present_when_required a = do
  require (counts a.operation || is_given a.field_name)
      (validation_error (words "requires a field" ∷ []))
  ok a

pub record AggregateRecordsArguments : Type 0 where
  pub group_by : List String
  pub aggregations : List Aggregation
  pub output_artifact_id : String

pub record TopKArguments : Type 0 where
  pub field_name : String
  pub k : ℕ
  pub descending : Bool
  pub output_artifact_id : String

pub record AggregateArtifactsArguments : Type 0 where
  pub output_artifact_id : String

-- Python's `==`, `<`, `<=` and `in` on these values, where none is a TypeError, the equality of the keys of a
-- dictionary, and the arithmetic on floats. `to_float` is none where `float` of an integer overflows.
pub record Values : Type 0 where
  pub equal : Json → Json → Bool
  pub less : Json → Json → Option Bool
  pub less_equal : Json → Json → Option Bool
  pub within : Json → Json → Option Bool
  pub same_key : Json → Json → Bool
  pub to_float : Bool → ℕ → Option Float
  pub float_less : Float → Float → Bool
  pub float_sum : List Float → Float
  pub float_prod : List Float → Float
  pub float_subtract : Float → Float → Float
  pub float_divide : Float → Float → Float
  pub divide_by_length : Float → ℕ → Float
  pub is_zero : Float → Bool

unfoldable pub single_input : SemanticAction → Result String
single_input action = elim action.inputs [
  | [] ↦
      err (value_error (name action.operator ∷ words " requires exactly one input artifact" ∷ []))
  | input ∷ rest ↦ elim rest [
    | [] ↦ ok input
    | _ ∷ _ ↦
        err (value_error (name action.operator ∷ words " requires exactly one input artifact" ∷ []))
  ]
]

-- `field in record`
abbrev pub has_field : String → Fields → Bool
has_field f record' = elim (get_field f record') [ none ↦ false | some _ ↦ true ]

-- `record.get(field)`, where None is the JSON null
abbrev pub value_at : String → Fields → Json
value_at f record' = elim (get_field f record') [ none ↦ null | some v ↦ v ]

-- `record[field] = value`: a field that is there keeps its place.
unfoldable pub set_field : String → Json → Fields → Fields
set_field f v end = field f v end
set_field f v (field g w rest) = if g == f then field g v rest else field g w (set_field f v rest)

-- `isinstance(value, (str, list, tuple, dict))`
abbrev pub is_container : Json → Bool
is_container (str _) = true
is_container (arr _) = true
is_container (obj _) = true
is_container _ = false

abbrev pub is_number : Json → Bool
is_number (int _ _) = true
is_number (float _) = true
is_number _ = false

abbrev pub is_string : Json → Bool
is_string (str _) = true
is_string _ = false

abbrev pub is_hashable : Json → Bool
is_hashable (arr _) = false
is_hashable (obj _) = false
is_hashable _ = true

abbrev incompatible : Option Bool → Result Bool
incompatible = or_raise (value_error (words "comparison operands have incompatible types" ∷ []))

module _ (values : Values) where
  -- `_compare`
  unfoldable pub compare_values : Json → ComparisonOperator → Json → Result Bool
  compare_values actual eq expected = ok (values.equal actual expected)
  compare_values actual ne expected = ok (not (values.equal actual expected))
  compare_values actual contains expected =
      if is_container actual
      then or_raise (type_error (words "in" ∷ [])) (values.within expected actual)
      else err (value_error (words "contains requires a string, array, or object field" ∷ []))
  compare_values actual lt expected = incompatible (values.less actual expected)
  compare_values actual lte expected = incompatible (values.less_equal actual expected)
  compare_values actual gt expected = incompatible (values.less expected actual)
  compare_values actual gte expected = incompatible (values.less_equal expected actual)

  abbrev number_of : String → Option Json → Result Float
  number_of f (some (int sign n)) = or_raise (other_error "OverflowError") (values.to_float sign n)
  number_of f (some (float x)) = ok x
  number_of f _ = err (value_error (words "field must be numeric: " ∷ name f ∷ []))

  -- `_numeric`
  unfoldable pub numeric : String → Fields → Result Float
  numeric f record' = number_of f (get_field f record')

  -- `min(values)` and `max(values)`: the first of the least, or of the greatest.
  abbrev least : Float → List Float → Float
  least m [] = m
  least m (x ∷ xs) = least (if values.float_less x m then x else m) xs

  abbrev greatest : Float → List Float → Float
  greatest m [] = m
  greatest m (x ∷ xs) = greatest (if values.float_less m x then x else m) xs

  abbrev combined : AggregateOperation → List Float → Json
  combined operation [] = null
  combined sum xs = float (values.float_sum xs)
  combined min (x ∷ xs) = float (least x xs)
  combined max (x ∷ xs) = float (greatest x xs)
  combined avg xs = float (values.divide_by_length (values.float_sum xs) (length xs))
  combined count xs = null

  -- `_apply_aggregation`
  unfoldable pub apply_aggregation : List Fields → Aggregation → Result Json
  unfolding numeric
  apply_aggregation records aggregation =
      if counts aggregation.operation then ok (int false (length records)) else (do
        f ←
            or_raise (value_error (words "aggregation field is required" ∷ []))
              aggregation.field_name
        xs ← traverse (numeric f) records
        ok (combined aggregation.operation xs))

  abbrev quotient : List Float → Result Float
  quotient (x ∷ y ∷ rest) =
      if values.is_zero y
      then err (value_error (words "division by zero" ∷ []))
      else ok (values.float_divide x y)
  quotient _ = err (other_error "IndexError")

  abbrev difference : List Float → Result Float
  difference (x ∷ y ∷ rest) = ok (values.float_subtract x y)
  difference _ = err (other_error "IndexError")

  abbrev derived_value : DeriveOperation → List Float → Result Float
  derived_value add xs = ok (values.float_sum xs)
  derived_value subtract xs = difference xs
  derived_value multiply xs = ok (values.float_prod xs)
  derived_value divide xs = quotient xs

  -- One derivation after the other, each on the record that the earlier ones have extended.
  unfoldable pub derive : List Derivation → Fields → Result Fields
  unfolding numeric set_field
  derive [] record' = ok record'
  derive (d ∷ ds) record' = do
    xs ← traverse (λ f. numeric f record') d.sources
    result ← derived_value d.operation xs
    derive ds (set_field d.target (float result) record')
