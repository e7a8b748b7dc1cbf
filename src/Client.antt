-- ===== src/Client.antt =====
-- runtime/client.py: the client of a worker over HTTP. The HTTP client, `quote` and the joining of URLs
-- are parameters; what an answer's body decodes to is a value, an error's detail, or neither.
pub mod Served
mod Tests
use Prim.Native.String.{◌++◌ as str_append}
use infra_joint_planner.Prelude.{
  ℕ, String, Bool, true, false, not, ◌&&◌, Option, List, [], ◌∷◌, leb, if◌then◌else◌,
}
use infra_joint_planner.Core.Errors.{
  Exception, Result, ok, err, Message, words, FailureDetail, HttpDetail, failure, plain,
  typed_execution_error, validation_error, other_error, is_error_status,
}
use infra_joint_planner.Core.Action.{SemanticAction}
use infra_joint_planner.Model.{Bytes}
use infra_joint_planner.Effects.{Effect, pure, raise, lift, ◌>>=◌, ◌>>◌}
use infra_joint_planner.Api.{
  ExecuteOperatorRequest, ExecuteOperatorResponse, WorkerStateResponse, PullArtifactRequest,
  PullArtifactResponse, WorkerClient,
}

pub data Body (A : Type 0) : Type 0 where
  decoded : A → Body A
  detail : HttpDetail → Body A
  unreadable : Body A

pub record HttpResponse (A : Type 0) : Type 0 where
  pub status_code : ℕ
  pub body : Body A

-- What the client sends, over the paths of the worker's API.
pub record Transport (W : Type 0) : Type 0 where
  pub get_state : Effect W (HttpResponse WorkerStateResponse)
  pub post_pull : PullArtifactRequest → Effect W (HttpResponse PullArtifactResponse)
  -- the path, the body, the content type and the checksum
  pub put_content : String → Bytes → String → String → Effect W (HttpResponse PullArtifactResponse)
  pub post_execute : ExecuteOperatorRequest → Effect W (HttpResponse ExecuteOperatorResponse)
  pub join : String → String
  pub quote : String → String

abbrev pub is_success : ℕ → Bool
is_success status_code = leb 200 status_code && leb status_code 299

abbrev pub http_status_error : Exception
http_status_error = other_error "HTTPStatusError"

module _ {A : Type 0} where
  -- `model_validate(response.json())`
  abbrev pub validated : Body A → Result A
  validated (decoded a) = ok a
  validated _ = err (validation_error (words "unexpected answer" ∷ []))

  -- `raise_for_status`, before the body is read
  abbrev pub checked : HttpResponse A → Result A
  checked response =
      if is_success response.status_code then validated response.body else err http_status_error

  -- `_raise_typed_error`, which returns where the detail is not a failure
  abbrev pub raise_typed_error : HttpResponse A → Body A → Result A
  raise_typed_error response (detail (failure d)) = err (typed_execution_error d.code d.message)
  raise_typed_error response _ = checked response

  abbrev pub typed : HttpResponse A → Result A
  typed response =
      if is_error_status response.status_code
      then raise_typed_error response response.body
      else checked response

module _ {W : Type 0} (transport : Transport W) where
  unfoldable pub get_state : Effect W WorkerStateResponse
  get_state = do response ← transport.get_state; lift (checked response)

  unfoldable pub artifact_url : String → String
  artifact_url artifact_id = transport.join (str_append "artifact/" (transport.quote artifact_id))

  unfoldable pub pull_artifact : String → String → Option String → Effect W PullArtifactResponse
  pull_artifact artifact_id source_url expected_sha256 = do
    response ← transport.post_pull (record {
      artifact_id = artifact_id;
      source_url = source_url;
      expected_sha256 = expected_sha256;
    })
    lift (checked response)

  unfoldable pub put_artifact : String → String → Bytes → String → Effect W PullArtifactResponse
  put_artifact artifact_id media_type content expected_sha256 = do
    response ←
        transport.put_content (str_append "/artifact/" (transport.quote artifact_id)) content
          media_type expected_sha256
    lift (checked response)

  unfoldable pub execute_operator :
      SemanticAction → Option String → Effect W ExecuteOperatorResponse
  execute_operator action deployment_id = do
    response ← transport.post_execute (record { action = action; deployment_id = deployment_id })
    lift (typed response)

  -- `HttpWorkerClient`
  abbrev pub http_worker_client : String → WorkerClient W
  http_worker_client agent_id = record {
    agent_id = agent_id;
    execute_operator = execute_operator;
    get_state = get_state;
    artifact_url = artifact_url;
    pull_artifact = pull_artifact;
    put_artifact = put_artifact;
  }
