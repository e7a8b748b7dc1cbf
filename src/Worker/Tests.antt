-- ===== src/Worker/Tests.antt =====
-- A worker with one stored artifact, the operator that reads it, and one model.
use infra_joint_planner.Prelude.{
  ℕ, ◌+◌, String, ◌≡◌, refl, sym, List, [], ◌∷◌, Option, none, some, length,
}
use infra_joint_planner.Prelude.Dict.{Dict}
use infra_joint_planner.Core.Errors.{Exception, Message, ok, words}
use infra_joint_planner.Core.Json.{Json, str, Fields, end, field}
use infra_joint_planner.Core.Action.{SemanticAction}
use infra_joint_planner.Model.{Bytes, Decoder, ModelDeployment}
use infra_joint_planner.Registry.{OperatorRegistry, SchemaError}
use infra_joint_planner.Store.{StoredArtifact}
use infra_joint_planner.Store.Memory.{Artifacts}
use infra_joint_planner.Store.Instances.{memory, memory-IsLawful}
use infra_joint_planner.Effects.{OnlyRaises}
use infra_joint_planner.Api.{ExecuteOperatorRequest, PullArtifactRequest}
use infra_joint_planner.Operators.Builtin.{read_artifact_spec}
use infra_joint_planner.Worker.{before_semicolon, Held, Server, Handler, Backend, read_artifact}
use infra_joint_planner.Worker.Artifacts.{PutRequest, put_artifact, ArtifactFetcher}
use infra_joint_planner.Worker.Execute.{execute}
use infra_joint_planner.Worker.Transfers.{Outcome, put_artifact-Outcome}
use infra_joint_planner.Worker.Answers.{Leaving, execute-in_flight, execute-IsHttp}
use Prim.Native.String.{len}

-- A decoder that knows the empty text only.
abbrev decode_empty : Bytes → Option String
decode_empty [] = some ""
decode_empty (b ∷ bs) = none

decode_empty-length : (b : Bytes) (t : String) → decode_empty b ≡ some t → len t ≡ length b
decode_empty-length [] t h = let e : "" ≡ t = cc in rw (sym e) refl
decode_empty-length (b ∷ bs) t h = absurd (cc)

abbrev utf8 : Decoder
utf8 = record { decode = decode_empty; decode-length = decode_empty-length }

abbrev sum : Bytes → String
sum content = "sum"

abbrev note : StoredArtifact
note = record { artifact_id = "note"; media_type = "text/plain"; content = []; sha256_hex = "sum" }

-- The world counts the calls of the model.
abbrev held : Held Artifacts ℕ
held = record { store = ("note", note) ∷ []; world = 0 }

abbrev server : Server Artifacts ℕ
server = record { in_flight = 2; held = held }

abbrev told : Exception → Message
told e = words "failed" ∷ []

abbrev class_name : Exception → String
class_name e = "Exception"

abbrev reader : Handler Artifacts ℕ
reader = read_artifact memory utf8 10

abbrev registry : OperatorRegistry (Handler Artifacts ℕ)
registry = record {
  bindings = ("read_artifact", record { spec = read_artifact_spec; handler = reader }) ∷ [];
}

abbrev calling : Backend ℕ
calling request w = (
  ok (record {
    text = "yes";
    telemetry = record {
      service_latency_ms = record { bits = 0 };
      input_tokens = none;
      output_tokens = none;
      finish_reason = none;
    };
  }),
  w + 1,
)

abbrev small : ModelDeployment (Backend ℕ)
small = record {
  deployment_id = "m";
  model_id = "slm";
  backend = calling;
  modalities = "text" ∷ [];
  context_window = 100;
  reserved_output_tokens = 20;
  image_token_cost = 1;
}

abbrev deployments : Dict (ModelDeployment (Backend ℕ))
deployments = ("m", small) ∷ []

abbrev no_errors : Fields → Json → List SchemaError
no_errors schema instance' = []

abbrev reading : String → ExecuteOperatorRequest
reading i = record {
  action = record { operator = "read_artifact"; inputs = i ∷ []; arguments = end };
  deployment_id = none;
}

execute-in_flight_example :
    (execute memory deployments utf8 told class_name registry no_errors
      (reading "lost")
      server).1.in_flight
    ≡ 2
execute-in_flight_example =
    execute-in_flight memory deployments utf8 told class_name registry no_errors (reading "lost")
      server

execute-IsHttp_example :
    OnlyRaises
      (Leaving memory deployments utf8 told class_name registry no_errors (reading "lost").action)
      (execute memory deployments utf8 told class_name registry no_errors (reading "lost") server).0
execute-IsHttp_example =
    execute-IsHttp memory deployments utf8 told class_name registry no_errors (reading "lost")
      server

-- An action that asks the model about the note.
abbrev asking : SemanticAction
asking = record {
  operator = "invoke_model";
  inputs = "note" ∷ [];
  arguments = field "prompt" (str "why") end;
}

abbrev bringing : PutRequest
bringing = record { body = 1 ∷ 2 ∷ []; content_type = none; x_artifact_sha256 = some "sum" }

put_artifact-Outcome_example :
    Outcome memory sum held.store "new" "application/octet-stream"
      (1 ∷ 2 ∷ [])
      (some "sum")
      (put_artifact memory sum "new" bringing held)
unfolding before_semicolon
put_artifact-Outcome_example =
    put_artifact-Outcome memory sum (memory-IsLawful sum) "new" bringing held

abbrev fetch : ArtifactFetcher ℕ
fetch url w = (ok (record { content = 5 ∷ []; media_type = "text/plain"; sha256_hex = none }), w)

abbrev pulling : PullArtifactRequest
pulling = record {
  artifact_id = "far";
  source_url = "http://host/far";
  expected_sha256 = some "sum";
}
