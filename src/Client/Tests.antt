-- ===== src/Client/Tests.antt =====
-- A client that asks a worker for an artifact that it does not have.
use infra_joint_planner.Prelude.{ℕ, String, ◌≡◌, refl, Option, none, some, List, [], ◌∷◌, length}
use infra_joint_planner.Prelude.Dict.{Dict, lookup}
use infra_joint_planner.Core.Errors.{
  missing_artifact, typed_execution_error, name, Exception, Message, ok, err, words, is_key_error,
  other_error,
}
use infra_joint_planner.Core.Json.{Json, Fields, end}
use infra_joint_planner.Core.Action.{SemanticAction}
use infra_joint_planner.Model.{Bytes, Decoder, ModelDeployment}
use infra_joint_planner.Registry.{
  OperatorRegistry, SchemaError, binding, validate_action, validate_instance,
}
use infra_joint_planner.Store.Memory.{Artifacts, get}
use infra_joint_planner.Store.Instances.{memory}
use infra_joint_planner.Effects.{Effect, raise}
use infra_joint_planner.Api.{ExecuteOperatorRequest, ExecuteOperatorResponse}
use infra_joint_planner.Worker.{Server, Handler, Backend, failure_of, read_artifact}
use infra_joint_planner.Operators.Builtin.{read_artifact_spec}
use infra_joint_planner.Worker.Execute.{execute, dispatch, answered as execute_answered}
use infra_joint_planner.Client.{Transport, execute_operator}
use infra_joint_planner.Client.Served.{answered, execute_operator-seen}
use Prim.Native.String.{len}

abbrev no_text : Bytes → Option String
no_text b = none

no_text-length : (b : Bytes) (t : String) → no_text b ≡ some t → len t ≡ length b
no_text-length b t h = absurd (cc)

abbrev utf8 : Decoder
utf8 = record { decode = no_text; decode-length = no_text-length }

abbrev told : Exception → Message
told e = words "failed" ∷ []

abbrev class_name : Exception → String
class_name e = "Exception"

abbrev registry : OperatorRegistry (Handler Artifacts ℕ)
registry = record {
  bindings =
      (
        "read_artifact",
        record { spec = read_artifact_spec; handler = read_artifact memory utf8 10 },
      )
      ∷ [];
}

abbrev deployments : Dict (ModelDeployment (Backend ℕ))
deployments = []

abbrev no_errors : Fields → Json → List SchemaError
no_errors schema instance' = []

abbrev worker : ExecuteOperatorRequest → Effect (Server Artifacts ℕ) ExecuteOperatorResponse
worker = execute memory deployments utf8 told class_name registry no_errors

abbrev transport : Transport (Server Artifacts ℕ)
transport = record {
  get_state = raise (other_error "ConnectError");
  post_pull = λ r. raise (other_error "ConnectError");
  put_content = λ p b t s. raise (other_error "ConnectError");
  post_execute = λ q w. (ok (answered (worker q w).0), (worker q w).1);
  join = λ p. p;
  quote = λ s. s;
}

abbrev reading : SemanticAction
reading = record { operator = "read_artifact"; inputs = "lost" ∷ []; arguments = end }

abbrev server : Server Artifacts ℕ
server = record { in_flight = 0; held = record { store = []; world = 0 } }

execute_operator-seen_example : execute_operator transport reading none server ≡ (
  err (
      typed_execution_error missing_artifact
        (words "input artifact not found: " ∷ name "lost" ∷ [])),
  server,
)
unfolding execute binding lookup is_key_error dispatch validate_action validate_instance
    execute_answered failure_of read_artifact get
execute_operator-seen_example =
    execute_operator-seen memory deployments utf8 told class_name registry no_errors transport
      reading none server (λ w. refl)
