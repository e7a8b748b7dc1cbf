-- ===== src/Executor.antt =====
-- runtime/executor.py: bind an action, bring its inputs to the chosen worker, and run it there.
mod Binding
pub mod Transfers
mod Tests
unfoldable pub use Binding.{single_agent, bind_action}
use infra_joint_planner.Prelude.{
  ℕ, String, Bool, true, false, List, [], ◌∷◌, Option, none, some, map, keep, if◌then◌else◌, eqb,
  length, first,
}
use infra_joint_planner.Prelude.Dict.{Dict, lookup, keys}
use infra_joint_planner.Prelude.Text.{elem, str_leb}
use infra_joint_planner.Prelude.Sorting.{sort_by}
use infra_joint_planner.Core.Errors.{
  words, name, Result, ok, err, not_implemented_error, runtime_error, key_error, or_raise,
}
use infra_joint_planner.Core.Json.{Float, Json, Fields}
use infra_joint_planner.Core.Action.{SemanticAction, JointAction}
use infra_joint_planner.Core.State.{ArtifactRuntimeState, EnvironmentSpec, InfrastructureState}
use infra_joint_planner.Registry.{OperatorRegistry, Validator, binding, validate_action}
use infra_joint_planner.Resolver.{ResolvedBinding, artifacts_by_id, get_item, resolve}
use infra_joint_planner.Model.{ModelCallTelemetry}
use infra_joint_planner.Api.{ExecuteOperatorResponse, PullArtifactResponse, WorkerClient}
use infra_joint_planner.Effects.{Effect, pure, raise, lift, ◌>>=◌, ◌>>◌, Platform, total}

pub record ArtifactTransferTelemetry : Type 0 where
  pub artifact_id : String
  pub source_agent_id : String
  pub target_agent_id : String
  pub bytes_transferred : ℕ
  pub duration_ms : Float

pub record ExecutionResult : Type 0 where
  pub operator : String
  pub agent_ids : List String
  pub deployment_id : Option String
  pub output : Fields
  pub operator_latency_ms : Float
  pub model_telemetry : Option ModelCallTelemetry
  pub transfers : List ArtifactTransferTelemetry

module _ {W : Type 0} (platform : Platform W) where
  open platform use {perf_counter, elapsed_ms}

  module _ (worker_clients : Dict (WorkerClient W)) (artifacts : Dict ArtifactRuntimeState)
      (target : WorkerClient W) where
    -- The worker to pull from: the least id among the artifact's locations that have a client.
    unfoldable pub source_for : String → List String → Result (WorkerClient W)
    source_for artifact_id current_locations =
        elim (first
          (sort_by str_leb (keep (λ a. elem a (keys worker_clients)) current_locations))) [
            | none ↦
                err (
                  runtime_error
                    (words "no reachable source for artifact: " ∷ name artifact_id ∷ []))
            | some source_id ↦ get_item worker_clients source_id
          ]

    unfoldable pub pull_from :
        String → Option String → WorkerClient W → Effect W ArtifactTransferTelemetry
    pull_from artifact_id sha256_hex source = do
      started ← total perf_counter
      response ← target.pull_artifact artifact_id (source.artifact_url artifact_id) sha256_hex
      stopped ← total perf_counter
      pure (record {
        artifact_id = artifact_id;
        source_agent_id = source.agent_id;
        target_agent_id = target.agent_id;
        bytes_transferred = response.size_bytes;
        duration_ms = elapsed_ms started stopped;
      })

    -- The loop over the inputs: what is at the target already is passed over.
    unfoldable pub localize_inputs : List String → Effect W (List ArtifactTransferTelemetry)
    unfolding source_for
    localize_inputs [] = pure []
    localize_inputs (artifact_id ∷ inputs) =
        let rest = localize_inputs inputs in
        do
          artifact ← lift (get_item artifacts artifact_id)
          if elem target.agent_id artifact.locations then rest else do
            source ← lift (source_for artifact_id artifact.locations)
            transfer ← pull_from artifact_id artifact.sha256_hex source
            transfers ← rest
            pure (transfer ∷ transfers)

  module _ {H : Type 0} (iter_errors : Validator) (render : Json → String)
      (registry : OperatorRegistry H) (environment : EnvironmentSpec)
      (worker_clients : Dict (WorkerClient W)) where
    unfoldable pub execute : JointAction → InfrastructureState → Effect W ExecutionResult
    execute action infrastructure = do
      (resolved, worker) ←
          lift (
            bind_action iter_errors render registry environment worker_clients action
              infrastructure)
      transfers ←
          localize_inputs worker_clients (artifacts_by_id infrastructure) worker
            action.semantic.inputs
      started ← total perf_counter
      response ← worker.execute_operator action.semantic resolved.deployment_id
      stopped ← total perf_counter
      pure (record {
        operator = response.operator;
        agent_ids = resolved.agent_ids;
        deployment_id = resolved.deployment_id;
        output = response.output;
        operator_latency_ms = elapsed_ms started stopped;
        model_telemetry = response.model_telemetry;
        transfers = transfers;
      })
