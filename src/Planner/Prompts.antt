-- ===== src/Planner/Prompts.antt =====
-- planning/planner.py and planning/finalize.py: the prompts, built from the logical view of a run.
-- Python's `json.dumps` and pydantic's `model_dump` are parameters.
use Prim.Native.String.{◌++◌ as str_append}
use infra_joint_planner.Prelude.{
  String, Bool, false, List, [], ◌∷◌, Option, map, ◌==◌, if◌then◌else◌,
}
use infra_joint_planner.Core.Errors.{
  words, Result, ok, err, ◌>>=◌, or_raise, key_error, type_error, name,
}
use infra_joint_planner.Core.Json.{
  Json, int, str, arr, obj, Items, nil, cons, Fields, end, field, get_field, names_array,
}
use infra_joint_planner.Core.Action.{SemanticAction, JointDecision, action, finish}
use infra_joint_planner.Core.Task.{
  OutputFormat, choice, short_text, OutputContract, ArtifactSpec, TaskContract,
}
use infra_joint_planner.Registry.{OperatorRegistry, planner_tools}
use infra_joint_planner.Executor.{ExecutionResult}
use infra_joint_planner.Planner.{PlannerObservation, from_execution, BlindPlannerContext}

-- `json.dumps` with compact separators, with and without `sort_keys`, and three dumps of contracts.
pub record Dumps : Type 0 where
  pub compact : Json → String
  pub compact_sorted : Json → String
  pub semantic : SemanticAction → Json
  pub contract : OutputContract → Json
  pub observation : PlannerObservation → Json
  pub choices : Option (List String) → String
  pub schema : Option Fields → String

abbrev pub items : List Json → Items
items [] = nil
items (x ∷ xs) = cons x (items xs)

-- `"\n".join(lines)`
abbrev pub join_lines : List String → String
join_lines [] = ""
join_lines (s ∷ []) = s
join_lines (s ∷ t ∷ r) = str_append s (str_append "\n" (join_lines (t ∷ r)))

-- `tool["function"]["name"] != "read_artifact"`
abbrev member : String → Json → Result Json
member k (obj fields) = or_raise (key_error (name k ∷ [])) (get_field k fields)
member k _ = err (type_error (words "not subscriptable by a text" ∷ []))

abbrev is_text : String → Json → Bool
is_text s (str t) = t == s
is_text s _ = false

unfoldable pub without_read_artifact : List Json → Result (List Json)
without_read_artifact [] = ok []
without_read_artifact (tool ∷ tools) = do
  function ← member "function" tool
  name' ← member "name" function
  rest ← without_read_artifact tools
  ok (if is_text "read_artifact" name' then rest else tool ∷ rest)

module _ (dumps : Dumps) where
  unfoldable pub logical_decision_payload : JointDecision → Json
  logical_decision_payload (action a) =
      obj (field "decision_type" (str "action") (field "semantic" (dumps.semantic a.semantic) end))
  logical_decision_payload (finish f) =
      obj (field "decision_type" (str "finish") (field "reason" (str f.reason) end))

  unfoldable pub artifact_payload : ArtifactSpec → Json
  artifact_payload artifact = obj (
      field "artifact_id" (str artifact.artifact_id) (
        field "logical_type" (str artifact.logical_type) (
          field "media_type" (str artifact.media_type)
            (field "size_bytes" (int false artifact.size_bytes) end))))

  unfoldable pub logical_task_payload : TaskContract → Json
  logical_task_payload task = obj (
      field "task_id" (str task.task_id) (
        field "benchmark_id" (str task.benchmark_id) (
          field "objective" (str task.objective) (
            field "artifacts" (arr (items (map artifact_payload task.artifacts)))
              (field "output_contract" (dumps.contract task.output_contract) end)))))

  abbrev action_shape : Json
  action_shape = obj (
      field "decision_type" (str "action") (
        field "operator" (str "an available operator name") (
          field "inputs" (arr (names_array ("logical artifact id" ∷ [])))
            (field "arguments" (obj end) end))))

  abbrev finish_shape : Json
  finish_shape =
      obj (
        field "decision_type" (str "finish")
          (field "reason" (str "why evidence is sufficient") end))

  -- The lines of the planner's prompt, from the tools and the logical state.
  unfoldable pub planner_payload : List Json → BlindPlannerContext → Json
  planner_payload tools context = obj (
      field "task" (logical_task_payload context.task) (
        field "available_operators" (arr (items tools)) (
          field "decision_history" (arr (items (map logical_decision_payload context.decisions))) (
            field "observations" (arr (items (map dumps.observation context.observations)))
              (field "remaining_steps" (int false context.remaining_steps) end)))))

  unfoldable pub render_planner_prompt :
      {H : Type 0} → OperatorRegistry H → BlindPlannerContext → Result String
  render_planner_prompt registry context = do
    all_tools ← planner_tools registry
    tools ← without_read_artifact all_tools
    ok (
        join_lines (
          "You are the blind semantic planner in a controlled benchmark run."
          ∷ "You have no infrastructure visibility. Choose only the next logical action."
          ∷ "Physical placement is applied separately as AUTO; do not name agents, hosts, deployments, devices, networks, or physical policies."
          ∷ "Use only an available operator and satisfy its inputs and arguments schema."
          ∷ "Use invoke_model with relevant text/image artifacts for semantic reasoning. Use read_artifact only for tiny control or metadata text, never benchmark evidence. Reduce large structured or media artifacts before model invocation."
          ∷ "When video sampling yields many frames, make a contact sheet before invoking the model so the image set remains bounded."
          ∷ "Return exactly one JSON object with no Markdown or surrounding text."
          ∷ str_append "Action form: " (dumps.compact action_shape)
          ∷ str_append "Finish form: " (dumps.compact finish_shape)
          ∷ "State:"
          ∷ dumps.compact_sorted (planner_payload tools context)
          ∷ []))

  unfoldable pub contract_instruction : OutputFormat → OutputContract → String
  contract_instruction choice contract =
      str_append "Output exactly one of these canonical choice labels: "
        (str_append (dumps.choices contract.choices) ".")
  contract_instruction short_text contract =
      "Output only the shortest answer span that directly answers the question; omit explanation and trailing punctuation."
  contract_instruction _ contract =
      str_append "Output exactly one JSON value satisfying this JSON Schema: "
        (str_append (dumps.schema contract.schema_definition) ".")

  unfoldable pub finalizer_payload : TaskContract → List JointDecision → List ExecutionResult → Json
  finalizer_payload task decisions observations = obj (
      field "task" (logical_task_payload task) (
        field "decision_history" (arr (items (map logical_decision_payload decisions))) (
          field "observations"
            (arr (items (map dumps.observation (map from_execution observations)))) end)))

  unfoldable pub render_finalizer_prompt :
      TaskContract → List JointDecision → List ExecutionResult → String
  render_finalizer_prompt task decisions observations = join_lines (
      "Produce the final benchmark answer using only the supplied logical evidence."
      ∷ "You cannot call tools or request more evidence."
      ∷ contract_instruction task.output_contract.format task.output_contract
      ∷ "Return only the final answer with no Markdown, explanation, or wrapper."
      ∷ "State:"
      ∷ dumps.compact_sorted (finalizer_payload task decisions observations)
      ∷ [])
