-- ===== src/Registry.antt =====
-- operators/registry.py: the operators that a planner may call, and their handlers.
-- The JSON-Schema validator is a parameter: the errors that it reports, in its order.
use infra_joint_planner.Prelude.{
  String, Bool, false, not, List, [], ◌∷◌, ◌++◌, none, some, map, first, ℕ, length,
}
use infra_joint_planner.Prelude.Dict.{Dict, lookup, insert, keys, has_key}
use infra_joint_planner.Prelude.Text.{str_leb}
use infra_joint_planner.Prelude.Sorting.{sort_by}
use infra_joint_planner.Core.Errors.{
  words, name, Message, Result, ok, err, ◌>>=◌, ◌>>◌, require, traverse, or_raise, value_error,
  key_error, operator_input_validation_error,
}
use infra_joint_planner.Core.Json.{Json, bool, str, arr, obj, Fields, end, field, names_array}
use infra_joint_planner.Core.Action.{SemanticAction}

pub record OperatorSpec : Type 0 where
  pub operator_id : String
  pub description : String
  pub input_schema : Fields
  pub argument_schema : Fields
  pub output_schema : Fields
  pub capability_requirements : List String

pub record OperatorBinding (H : Type 0) : Type 0 where
  pub spec : OperatorSpec
  pub handler : H

pub record OperatorRegistry (H : Type 0) : Type 0 where
  pub bindings : Dict (OperatorBinding H)

-- A jsonschema error: where in the instance, as the path's parts, and what.
pub record SchemaError : Type 0 where
  pub absolute_path : List String
  pub message : String

abbrev pub Validator : Type 0
Validator = Fields → Json → List SchemaError

-- `schema or default`: an empty dict is false.
abbrev pub or_default : Fields → Fields → Fields
or_default end d = d
or_default (field k v s) d = field k v s

abbrev pub string_array : Fields
string_array =
    field "type" (str "array") (field "items" (obj (field "type" (str "string") end)) end)

abbrev pub any_object : Fields
any_object = field "type" (str "object") end

abbrev dotted : List String → Message
dotted [] = []
dotted (p ∷ ps) = words "." ∷ words p ∷ dotted ps

unfoldable pub planner_tool : OperatorSpec → Json
planner_tool spec = obj (
    field "type" (str "function") (
      field "function"
        (obj (
          field "name" (str spec.operator_id) (
            field "description" (str spec.description) (
              field "parameters"
                (obj (
                  field "type" (str "object") (
                    field "properties"
                      (obj (
                        field "inputs" (obj (or_default spec.input_schema string_array))
                          (field "arguments" (obj spec.argument_schema) end)))
                      (field "required" (arr (names_array ("inputs" ∷ "arguments" ∷ [])))
                        (field "additionalProperties" (bool false) end)))))
                end))))
        end))

module _ (iter_errors : Validator) where
  unfoldable pub validate_instance : Json → Fields → String → String → Result (Unit {0})
  validate_instance instance' schema operator_id field' =
      elim (first (iter_errors schema instance')) [
        | none ↦ ok tt
        | some e ↦ err (
            operator_input_validation_error (
              name operator_id
              ∷ words " action violates "
              ∷ words field'
              ∷ (dotted e.absolute_path ++ words ": " ∷ words e.message ∷ [])))
      ]

module _ {H : Type 0} where
  abbrev pub empty : OperatorRegistry H
  empty = record { bindings = [] }

  unfoldable pub register : OperatorSpec → H → OperatorRegistry H → Result (OperatorRegistry H)
  register spec handler r = do
    require (not (has_key spec.operator_id r.bindings))
        (value_error (words "operator already registered: " ∷ name spec.operator_id ∷ []))
    ok (record {
      bindings = insert spec.operator_id (record { spec = spec; handler = handler }) r.bindings;
    })

  unfoldable pub binding : String → OperatorRegistry H → Result (OperatorBinding H)
  binding operator_id r =
      or_raise (key_error (words "unknown operator: " ∷ name operator_id ∷ []))
        (lookup operator_id r.bindings)

  unfoldable pub specs : OperatorRegistry H → Dict OperatorSpec
  specs r = map (λ e. (e.0, e.1.spec)) r.bindings

  -- `__contains__`, `__iter__` and `__len__`
  unfoldable pub contains : String → OperatorRegistry H → Bool
  contains operator_id r = has_key operator_id r.bindings

  unfoldable pub operator_ids : OperatorRegistry H → List String
  operator_ids r = keys r.bindings

  unfoldable pub size : OperatorRegistry H → ℕ
  size r = length r.bindings

  unfoldable pub planner_tools : OperatorRegistry H → Result (List Json)
  unfolding planner_tool binding
  planner_tools r =
      traverse (λ operator_id. do b ← binding operator_id r; ok (planner_tool b.spec))
        (sort_by str_leb (keys r.bindings))

  module _ (iter_errors : Validator) where
    unfoldable pub validate_action : SemanticAction → OperatorRegistry H → Result (Unit {0})
    unfolding binding
    validate_action action r = do
      b ← binding action.operator r
      validate_instance iter_errors (arr (names_array action.inputs))
          (or_default b.spec.input_schema string_array) action.operator "inputs"
      validate_instance iter_errors (obj action.arguments)
          (or_default b.spec.argument_schema any_object) action.operator "arguments"
