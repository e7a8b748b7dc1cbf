-- ===== src/Operators/Builtin.antt =====
-- operators/builtin.py: the specifications of the operators that every worker has.
use infra_joint_planner.Prelude.{false, ℕ, [], ◌∷◌}
use infra_joint_planner.Core.Errors.{words, Result, err, runtime_error}
use infra_joint_planner.Core.Json.{Json, bool, int, str, arr, obj, nil, cons, Fields, end, field}
use infra_joint_planner.Registry.{OperatorSpec}

abbrev pub natural : ℕ → Json
natural n = int false n

-- `{"type": "array", "items": {"type": "string"}, **bounds}`
abbrev pub strings_schema : Fields → Fields
strings_schema bounds =
    field "type" (str "array") (field "items" (obj (field "type" (str "string") end)) bounds)

-- The schema of an object with one text.
abbrev pub text_schema : Fields
text_schema = field "type" (str "object") (
    field "properties" (obj (field "text" (obj (field "type" (str "string") end)) end)) (
      field "required" (arr (cons (str "text") nil))
        (field "additionalProperties" (bool false) end)))

unfoldable pub invoke_model_spec : OperatorSpec
invoke_model_spec = record {
  operator_id = "invoke_model";
  description = "Invoke a model deployment with a prompt and optional text/image artifacts.";
  input_schema = strings_schema (field "maxItems" (natural 64) end);
  argument_schema = field "type" (str "object") (
      field "properties"
        (obj (
          field "prompt" (obj (field "type" (str "string") (field "minLength" (natural 1) end)))
            end))
        (field "required" (arr (cons (str "prompt") nil))
          (field "additionalProperties" (bool false) end)));
  output_schema = text_schema;
  capability_requirements = "model" ∷ [];
}

unfoldable pub read_artifact_spec : OperatorSpec
read_artifact_spec = record {
  operator_id = "read_artifact";
  description =
      "Read only small control or metadata text into planner context. Do not use this for benchmark evidence intended for model reasoning or for large artifacts.";
  input_schema = strings_schema (field "minItems" (natural 1) (field "maxItems" (natural 1) end));
  argument_schema =
      field "type" (str "object")
        (field "properties" (obj end) (field "additionalProperties" (bool false) end));
  output_schema = text_schema;
  capability_requirements = [];
}

unfoldable pub unavailable_handler : {A : Type 0} → Result A
unavailable_handler = err (runtime_error (words "operator must be executed by a worker" ∷ []))
