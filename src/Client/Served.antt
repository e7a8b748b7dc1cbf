-- ===== src/Client/Served.antt =====
-- runtime/client.py with worker/server.py: what a client gets from a worker. How FastAPI answers for a
-- result is a definition here: the value, an HTTP error's status and detail, or status 500.
use infra_joint_planner.Prelude.{
  ℕ, ◌≡◌, refl, ap, inl, inr, Bool-cases, [], ◌∷◌, if◌then◌else◌, true, false, Option, arith,
  String,
}
use infra_joint_planner.Core.Errors.{
  Exception, Message, Result, ok, err, HttpDetail, words, failure, plain, http_exception,
  typed_execution_error, value_error, runtime_error, type_error, key_error, not_implemented_error,
  validation_error, json_decode_error, artifact_not_found_error, artifact_corruption_error,
  artifact_conflict_error, binding_resolution_error, planner_decision_error,
  operator_input_validation_error, media_execution_error, model_input_limit_error,
  unsupported_model_artifact_error, graph_recursion_error, other_error, is_error_status,
}
use infra_joint_planner.Core.Action.{SemanticAction}
use infra_joint_planner.Effects.{Effect}
use infra_joint_planner.Api.{ExecuteOperatorRequest, ExecuteOperatorResponse}
use infra_joint_planner.Prelude.Dict.{Dict}
use infra_joint_planner.Model.{Decoder, ModelDeployment}
use infra_joint_planner.Registry.{OperatorRegistry, Validator}
use infra_joint_planner.Store.Interface.{ArtifactStore}
use infra_joint_planner.Worker.{Server, Handler, Backend}
use infra_joint_planner.Worker.Execute.{execute}
use infra_joint_planner.Client.{
  decoded, detail, unreadable, HttpResponse, Transport, is_success, http_status_error, typed,
  execute_operator,
}

module _ {A : Type 0} where
  abbrev pub error_response : Exception → HttpResponse A
  error_response (http_exception status_code d) = record {
    status_code = status_code;
    body = detail d;
  }
  error_response _ = record { status_code = 500; body = unreadable }

  abbrev pub answered : Result A → HttpResponse A
  answered (ok a) = record { status_code = 200; body = decoded a }
  answered (err e) = error_response e

  -- What the client is to see of a worker's exception: the typed failure, with its code and message,
  -- or an error of the status. An HTTPException whose status is none of an error has no value.
  abbrev pub seen_detail : HttpDetail → Result A
  seen_detail (failure d) = err (typed_execution_error d.code d.message)
  seen_detail (plain m) = err http_status_error

  abbrev pub no_value : ℕ → Result A
  no_value status_code =
      if is_success status_code
      then err (validation_error (words "unexpected answer" ∷ []))
      else err http_status_error

  abbrev pub seen_error : Exception → Result A
  seen_error (http_exception status_code d) =
      if is_error_status status_code then seen_detail d else no_value status_code
  seen_error _ = err http_status_error

  abbrev pub seen : Result A → Result A
  seen (ok a) = ok a
  seen (err e) = seen_error e

no_success : (n : ℕ) → is_error_status n ≡ true → is_success n ≡ false
no_success n h = ground arith

module _ {A : Type 0} where
  typed-error : (e : Exception) → typed {A = A} (error_response e) ≡ seen_error e
  typed-error (value_error m) = refl
  typed-error (runtime_error m) = refl
  typed-error (type_error m) = refl
  typed-error (key_error m) = refl
  typed-error (not_implemented_error m) = refl
  typed-error (validation_error m) = refl
  typed-error (json_decode_error m) = refl
  typed-error (artifact_not_found_error m) = refl
  typed-error (artifact_corruption_error m) = refl
  typed-error (artifact_conflict_error m) = refl
  typed-error (typed_execution_error c m) = refl
  typed-error (binding_resolution_error c m) = refl
  typed-error (planner_decision_error m) = refl
  typed-error (operator_input_validation_error m) = refl
  typed-error (media_execution_error m) = refl
  typed-error (model_input_limit_error m) = refl
  typed-error (unsupported_model_artifact_error m) = refl
  typed-error graph_recursion_error = refl
  typed-error (other_error m) = refl
  typed-error (http_exception s (failure d)) = elim (Bool-cases (is_error_status s)) [
    | inl b ↦ rw b refl
    | inr b ↦ rw b refl
  ]
  typed-error (http_exception s (plain m)) = elim (Bool-cases (is_error_status s)) [
    | inl b ↦ rw (b, no_success s b) refl
    | inr b ↦ rw b refl
  ]

  typed-answered : (r : Result A) → typed (answered r) ≡ seen r
  typed-answered (ok a) = refl
  typed-answered (err e) = typed-error e

module _ {S W : Type 0} (store : ArtifactStore S) (deployments : Dict (ModelDeployment (Backend W)))
    (utf8 : Decoder) (str_of : Exception → Message) (class_name : Exception → String)
    (registry : OperatorRegistry (Handler S W)) (iter_errors : Validator)
    (transport : Transport (Server S W)) where
  abbrev served : ExecuteOperatorRequest → Effect (Server S W) ExecuteOperatorResponse
  served = execute store deployments utf8 str_of class_name registry iter_errors

  -- The transport brings a request to the worker and its answer back.
  abbrev pub Serves : ExecuteOperatorRequest → Type 0
  Serves request =
      (server : Server S W)
      → transport.post_execute request server
        ≡ (ok (answered (served request server).0), (served request server).1)

  -- A client returns what the worker's `execute` returns, and raises the typed error with the code
  -- and the message of the failure that the worker raises, or an error of the status for any other
  -- exception; the worker is left as `execute` leaves it. The transport has to bring the request to
  -- the worker and its answer back.
  pub execute_operator-seen :
      (action : SemanticAction) (deployment_id : Option String) (server : Server S W)
      → Serves (record { action = action; deployment_id = deployment_id })
      → execute_operator transport action deployment_id server ≡ (
        seen (served (record { action = action; deployment_id = deployment_id }) server).0,
        (served (record { action = action; deployment_id = deployment_id }) server).1,
      )
  unfolding execute_operator
  execute_operator-seen action deployment_id server t =
      let request : ExecuteOperatorRequest = record {
        action = action;
        deployment_id = deployment_id;
      } in
      rw (t server)
        (ap (λ r. (r, (served request server).1)) (typed-answered (served request server).0))
