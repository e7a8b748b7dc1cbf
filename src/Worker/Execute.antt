-- ===== src/Worker/Execute.antt =====
-- worker/server.py: the execution of an operator on a worker, with the calls of its models.
use infra_joint_planner.Prelude.{
  ℕ, String, List, [], ◌∷◌, Option, none, some, map, ◌+◌, ◌-◌, ◌==◌, if◌then◌else◌,
}
use infra_joint_planner.Prelude.Dict.{Dict, lookup}
use infra_joint_planner.Core.Errors.{
  Exception, Result, ok, err, Message, words, name, ExecutionErrorCode, plain, http_exception,
  value_error, type_error, model_input_limit_error, unsupported_model_artifact_error,
  artifact_not_found_error, media_execution_error, is_key_error, is_value_error,
}
use infra_joint_planner.Core.Json.{Json, str, obj, Fields, end, field, get_field}
use infra_joint_planner.Core.Action.{SemanticAction}
use infra_joint_planner.Model.{
  Decoder, ModelArtifact, ModelRequest, ModelCompletion, ModelCallTelemetry, ModelDeployment,
  preflight_model_request,
}
use infra_joint_planner.Registry.{OperatorRegistry, Validator, binding, validate_action}
use infra_joint_planner.Store.{StoredArtifact}
use infra_joint_planner.Store.Interface.{ArtifactStore}
use infra_joint_planner.Effects.{Effect, pure, lift, ◌>>=◌, ◌>>◌, for_each}
use infra_joint_planner.Api.{ExecuteOperatorRequest, ExecuteOperatorResponse}
use infra_joint_planner.Worker.{Held, Server, Handler, Backend, failure_of, get_stored, in_world}

-- `isinstance(prompt, str) and prompt`
abbrev pub prompt_text : Option Json → Option String
prompt_text (some (str text)) = if text == "" then none else some text
prompt_text _ = none

abbrev pub model_artifact : StoredArtifact → ModelArtifact
model_artifact a = record {
  artifact_id = a.artifact_id;
  media_type = a.media_type;
  content = a.content;
}

abbrev pub prompt_for : SemanticAction → Result String
prompt_for action = elim (prompt_text (get_field "prompt" action.arguments)) [
  | some prompt ↦ ok prompt
  | none ↦ err (value_error (words "invoke_model requires a non-empty prompt" ∷ []))
]

abbrev pub answer_with : ModelCompletion → Fields × ModelCallTelemetry
answer_with completion = (field "text" (str completion.text) end, completion.telemetry)

abbrev pub output_of : Json → Result Fields
output_of (obj output) = ok output
output_of _ = err (type_error (words "operator handler must return a dictionary" ∷ []))

abbrev pub counted : {S W : Type 0} → (ℕ → ℕ) → Server S W → Server S W
counted f server = record { in_flight = f server.in_flight; held = server.held }

abbrev pub without_model :
    {S W : Type 0}
    → Handler S W
    → SemanticAction
    → Option String
    → Effect (Held S W) ExecuteOperatorResponse
without_model handler action (some deployment_id) = lift (
    failure_of ExecutionErrorCode.validation_failed
      (words "non-model operators must not specify a deployment" ∷ []) 422)
without_model handler action none = do
  result ← handler action
  output ← lift (output_of result)
  pure (record { operator = action.operator; output = output; model_telemetry = none })

module _ {W : Type 0} where
  abbrev pub request_of : ModelDeployment (Backend W) → String → List StoredArtifact → ModelRequest
  request_of d prompt artifacts = record {
    prompt = prompt;
    artifacts = map model_artifact artifacts;
    max_output_tokens = some d.reserved_output_tokens;
  }

  abbrev pub deployment_for :
      Dict (ModelDeployment (Backend W)) → Option String → Result (ModelDeployment (Backend W))
  deployment_for deployments none =
      failure_of ExecutionErrorCode.deployment_required
        (words "invoke_model requires a concrete deployment" ∷ []) 422
  deployment_for deployments (some deployment_id) = elim (lookup deployment_id deployments) [
    | some d ↦ ok d
    | none ↦
        failure_of ExecutionErrorCode.deployment_required
          (words "deployment is not available: " ∷ name deployment_id ∷ []) 409
  ]

  -- The preflight of a request for a deployment.
  abbrev pub preflight : Decoder → ModelDeployment (Backend W) → ModelRequest → Result ℕ
  preflight utf8 d request =
      preflight_model_request utf8 request d.modalities d.context_window d.reserved_output_tokens
        d.image_token_cost

module _ (str_of : Exception → Message) where
  -- The `except` clauses of `execute`.
  unfoldable pub answered : {A : Type 0} → Exception → Result A
  unfolding failure_of
  answered (artifact_not_found_error i) =
      failure_of ExecutionErrorCode.missing_artifact
        (words "input artifact not found: " ∷ name i ∷ []) 404
  answered (media_execution_error m) =
      failure_of ExecutionErrorCode.operator_failed (str_of (media_execution_error m)) 502
  answered e =
      if is_value_error e
      then failure_of ExecutionErrorCode.validation_failed (str_of e) 422
      else err e

  abbrev pub excepted : {A : Type 0} → Result A → Result A
  excepted (ok a) = ok a
  excepted (err e) = answered e

  abbrev pub bound : {A : Type 0} → Result A → Result A
  bound (ok b) = ok b
  bound (err e) = if is_key_error e then err (http_exception 404 (plain (str_of e))) else err e

module _ (str_of : Exception → Message) (class_name : Exception → String) where
  -- The `except` clauses around the preflight and the call.
  unfoldable pub model_failure : {A : Type 0} → Exception → Result A
  unfolding failure_of
  model_failure (model_input_limit_error m) =
      failure_of ExecutionErrorCode.context_limit_exceeded (str_of (model_input_limit_error m)) 422
  model_failure (unsupported_model_artifact_error m) =
      failure_of ExecutionErrorCode.unsupported_modality
        (str_of (unsupported_model_artifact_error m)) 422
  model_failure e =
      failure_of ExecutionErrorCode.model_service_error
        (words "model backend request failed: " ∷ words (class_name e) ∷ []) 502

  abbrev pub completed : {A : Type 0} → Result A → Result A
  completed (ok a) = ok a
  completed (err e) = model_failure e

module _ {S W : Type 0} (store : ArtifactStore S) (deployments : Dict (ModelDeployment (Backend W)))
    (utf8 : Decoder) (str_of : Exception → Message) (class_name : Exception → String) where
  abbrev pub call_model :
      ModelDeployment (Backend W) → ModelRequest → Effect (Held S W) ModelCompletion
  call_model d request h =
      let (r, h') = (do lift (preflight utf8 d request); in_world (d.backend request)) h in
      (completed str_of class_name r, h')

  unfoldable pub invoke_model :
      SemanticAction → Option String → Effect (Held S W) (Fields × ModelCallTelemetry)
  invoke_model action deployment_id = do
    deployment ← lift (deployment_for deployments deployment_id)
    prompt ← lift (prompt_for action)
    artifacts ← for_each (get_stored store) action.inputs
    completion ← call_model deployment (request_of deployment prompt artifacts)
    pure (answer_with completion)

  module _ (registry : OperatorRegistry (Handler S W)) (iter_errors : Validator) where
    -- The body of the outer `try`.
    unfoldable pub dispatch :
        Handler S W → ExecuteOperatorRequest → Effect (Held S W) ExecuteOperatorResponse
    dispatch handler request = do
      lift (validate_action iter_errors request.action registry)
      if request.action.operator == "invoke_model"
          then (do
            answer ← invoke_model request.action request.deployment_id
            pure (record {
              operator = request.action.operator;
              output = answer.0;
              model_telemetry = some answer.1;
            }))
          else without_model handler request.action request.deployment_id

    -- The `try` with its `finally`, where the count is one higher.
    abbrev pub attempt :
        Handler S W → ExecuteOperatorRequest → Effect (Server S W) ExecuteOperatorResponse
    attempt handler request server =
        let (r, h) = dispatch handler request server.held in
        (
          excepted str_of r,
          counted (λ n. n - 1) (record { in_flight = server.in_flight; held = h }),
        )

    -- `POST /execute/operator`
    unfoldable pub execute : ExecuteOperatorRequest → Effect (Server S W) ExecuteOperatorResponse
    execute request = do
      b ← lift (bound str_of (binding request.action.operator registry))
      λ server. attempt b.handler request (counted (λ n. n + 1) server)
