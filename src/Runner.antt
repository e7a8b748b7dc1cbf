-- ===== src/Runner.antt =====
-- experiments/runner.py and config.py: how the artifacts of a task are brought to the workers before a
-- run, and what a failed run reports. Files are read in the world.
pub mod Delivery
use infra_joint_planner.Prelude.{
  ℕ, String, Bool, true, false, not, ◌&&◌, List, [], ◌∷◌, ◌++◌, Option, none, some, map, keep, eqb,
  length, ◌==◌, if◌then◌else◌,
}
use infra_joint_planner.Prelude.Text.{str_leb}
use infra_joint_planner.Prelude.Sorting.{sort_by}
use infra_joint_planner.Prelude.Dict.{Dict, lookup, index_by, keys}
use infra_joint_planner.Core.Errors.{
  Exception, Message, Result, ok, err, words, name, require, or_raise, value_error,
  validation_error, typed_execution_error, binding_resolution_error, planner_decision_error,
  ExecutionErrorCode, ResolutionErrorCode,
}
use infra_joint_planner.Core.Json.{Float}
use infra_joint_planner.Core.State.{AgentSpec, ArtifactPlacement, EnvironmentSpec}
use infra_joint_planner.Core.Task.{ArtifactSpec, TaskContract}
use infra_joint_planner.Model.{Bytes}
use infra_joint_planner.Resolver.{get_item}
use infra_joint_planner.Api.{PullArtifactResponse, WorkerClient}
use infra_joint_planner.Surfaces.{same_set}
use infra_joint_planner.Executor.{ArtifactTransferTelemetry}
use infra_joint_planner.Effects.{Effect, pure, raise, lift, ◌>>=◌, ◌>>◌, Platform, total}
use infra_joint_planner.Benchmarks.{PreparedArtifact, AdaptationBundle}

-- The code of a failure: of a worker, of the resolver, or the runner's own.
pub data FailureCode : Type 0 where
  execution : ExecutionErrorCode → FailureCode
  resolution : ResolutionErrorCode → FailureCode
  planner_decision_invalid internal_error : FailureCode

pub record RunFailure : Type 0 where
  pub code : FailureCode
  pub exception_type : String
  pub message : Message

abbrev pub code_of : Exception → FailureCode
code_of (typed_execution_error code m) = execution code
code_of (binding_resolution_error code m) = resolution code
code_of (planner_decision_error m) = planner_decision_invalid
code_of _ = internal_error

-- `str(exc) or type(exc).__name__`
abbrev message_or : Message → String → Message
message_or [] exception_type = words exception_type ∷ []
message_or (p ∷ ps) exception_type = p ∷ ps

-- `_failure`
unfoldable pub run_failure : (Exception → Message) → (Exception → String) → Exception → RunFailure
run_failure str_of class_name e = record {
  code = code_of e;
  exception_type = class_name e;
  message = message_or (str_of e) (class_name e);
}

-- `RunnerConfig.workers_match_environment`
unfoldable pub workers_match_environment : Dict String → EnvironmentSpec → Result (Unit {0})
workers_match_environment worker_urls environment =
    require (same_set (keys worker_urls) (map (λ (a : AgentSpec). a.agent_id) environment.agents))
      (validation_error (words "worker_urls must exactly match EnvironmentSpec agents" ∷ []))

-- `placements[artifact_id]`: the agents of the artifact's placements, in their order
abbrev pub agents_for : String → List ArtifactPlacement → List String
agents_for artifact_id placements =
    map (λ (p : ArtifactPlacement). p.agent_id)
      (keep (λ (p : ArtifactPlacement). p.artifact_id == artifact_id) placements)

-- The placements are of the task's artifacts, and of all of them.
abbrev pub check_placements : List ArtifactPlacement → List ArtifactSpec → Result (Unit {0})
check_placements placements artifacts =
    require
      (same_set (map (λ (p : ArtifactPlacement). p.artifact_id) placements)
        (map (λ (a : ArtifactSpec). a.artifact_id) artifacts))
      (value_error (words "initial placements must cover exactly the current task artifacts" ∷ []))

module _ {W : Type 0} (platform : Platform W) (sha256 : Bytes → String)
    (read_bytes : String → Effect W Bytes) (artifact_sources : Dict String)
    (worker_clients : Dict (WorkerClient W)) where
  open platform use {perf_counter, elapsed_ms}

  abbrev from_source : String → Option String → Effect W (Bytes × String)
  from_source artifact_id none =
      raise (value_error (words "no materialization source for artifact: " ∷ name artifact_id ∷ []))
  from_source artifact_id (some path) = do content ← read_bytes path; pure (content, sha256 content)

  abbrev adapted_or_source : String → Option PreparedArtifact → Effect W (Bytes × String)
  adapted_or_source artifact_id (some adapted) = pure (adapted.content, adapted.sha256_hex)
  adapted_or_source artifact_id none = from_source artifact_id (lookup artifact_id artifact_sources)

  -- `_artifact_content`
  unfoldable pub artifact_content : String → Dict PreparedArtifact → Effect W (Bytes × String)
  artifact_content artifact_id prepared =
      adapted_or_source artifact_id (lookup artifact_id prepared)

  abbrev pub sent :
      ArtifactSpec → String → PullArtifactResponse → Float → Float → ArtifactTransferTelemetry
  sent spec agent_id response started stopped = record {
    artifact_id = spec.artifact_id;
    source_agent_id = "controller";
    target_agent_id = agent_id;
    bytes_transferred = response.size_bytes;
    duration_ms = elapsed_ms started stopped;
  }

  unfoldable pub put_at :
      ArtifactSpec → Bytes → String → String → Effect W ArtifactTransferTelemetry
  put_at spec content checksum agent_id = do
    started ← total perf_counter
    client ← lift (get_item worker_clients agent_id)
    response ← client.put_artifact spec.artifact_id spec.media_type content checksum
    stopped ← total perf_counter
    pure (sent spec agent_id response started stopped)

  -- The loop over the agents of one artifact.
  unfoldable pub put_all :
      ArtifactSpec → Bytes → String → List String → Effect W (List ArtifactTransferTelemetry)
  unfolding put_at
  put_all spec content checksum [] = pure []
  put_all spec content checksum (agent_id ∷ agents) = do
    transfer ← put_at spec content checksum agent_id
    transfers ← put_all spec content checksum agents
    pure (transfer ∷ transfers)

  -- The loop over the artifacts.
  unfoldable pub materialize_from :
      Dict PreparedArtifact
      → List ArtifactPlacement
      → List ArtifactSpec
      → Effect W (List ArtifactTransferTelemetry)
  unfolding put_all artifact_content
  materialize_from prepared placements [] = pure []
  materialize_from prepared placements (spec ∷ specs) = do
    found ← artifact_content spec.artifact_id prepared
    lift (
        require (eqb (length found.0) spec.size_bytes) (
          value_error
            (words "artifact size differs from TaskContract: " ∷ name spec.artifact_id ∷ [])))
    transfers ←
        put_all spec found.0 found.1 (sort_by str_leb (agents_for spec.artifact_id placements))
    more ← materialize_from prepared placements specs
    pure (transfers ++ more)

  -- `_materialize`
  unfoldable pub materialize :
      EnvironmentSpec → AdaptationBundle → Effect W (List ArtifactTransferTelemetry)
  unfolding materialize_from
  materialize environment bundle = do
    let placements = environment.initial_placements
    let artifacts = bundle.execution.task.artifacts
    lift (check_placements placements artifacts)
    materialize_from
        (index_by (λ (p : PreparedArtifact). p.spec.artifact_id) bundle.prepared_artifacts)
        placements artifacts
