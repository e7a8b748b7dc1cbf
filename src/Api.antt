-- ===== src/Api.antt =====
-- The contracts between runtime and worker (worker/server.py) and the client's interface
-- (runtime/client.py).
use infra_joint_planner.Prelude.{ℕ, String, Bool, List, Option}
use infra_joint_planner.Core.Json.{Fields}
use infra_joint_planner.Core.Action.{SemanticAction}
use infra_joint_planner.Model.{Bytes, ModelCallTelemetry}
use infra_joint_planner.Effects.{Effect}

pub record ExecuteOperatorRequest : Type 0 where
  pub action : SemanticAction
  pub deployment_id : Option String

pub record ExecuteOperatorResponse : Type 0 where
  pub operator : String
  pub output : Fields
  pub model_telemetry : Option ModelCallTelemetry

pub record WorkerDeploymentState : Type 0 where
  pub deployment_id : String
  pub model_id : String
  pub modalities : List String
  pub context_window : ℕ
  pub reserved_output_tokens : ℕ
  pub image_token_cost : ℕ

-- worker/artifact_store.py
pub record ArtifactMetadata : Type 0 where
  pub artifact_id : String
  pub media_type : String
  pub size_bytes : ℕ
  pub sha256_hex : String

pub record WorkerStateResponse : Type 0 where
  pub agent_id : String
  pub available : Bool
  pub in_flight : ℕ
  pub operators : List String
  pub deployments : List WorkerDeploymentState
  pub artifacts : List ArtifactMetadata

pub record PullArtifactRequest : Type 0 where
  pub artifact_id : String
  pub source_url : String
  pub expected_sha256 : Option String

pub record PullArtifactResponse : Type 0 where
  pub artifact_id : String
  pub size_bytes : ℕ
  pub sha256_hex : String

-- A client acts on the world that holds the workers.
pub record WorkerClient (W : Type 0) : Type 0 where
  pub agent_id : String
  pub execute_operator : SemanticAction → Option String → Effect W ExecuteOperatorResponse
  pub get_state : Effect W WorkerStateResponse
  pub artifact_url : String → String
  pub pull_artifact : String → String → Option String → Effect W PullArtifactResponse
  pub put_artifact : String → String → Bytes → String → Effect W PullArtifactResponse
