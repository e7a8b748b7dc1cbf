-- ===== src/Surfaces.antt =====
-- infrastructure/validation.py: the workers offer exactly what the environment declares of them.
-- Python's sets are lists, compared by their elements; the workers are asked one after the other.
pub mod Agreement
pub mod Validate
mod Tests
use infra_joint_planner.Prelude.{
  ℕ, String, Bool, true, false, not, ◌&&◌, List, [], ◌∷◌, Option, none, some, ◌==◌, map, keep, eqb,
  if◌then◌else◌,
}
use infra_joint_planner.Prelude.Text.{subset, elem, str_leb}
use infra_joint_planner.Prelude.Sorting.{sort_by}
use infra_joint_planner.Prelude.Dict.{Dict, lookup, keys, index_by}
use infra_joint_planner.Core.Errors.{
  words, name, Message, Exception, Result, ok, err, ◌>>=◌, ◌>>◌, require, traverse, key_error,
  typed_execution_error, surface_mismatch,
}
use infra_joint_planner.Core.State.{
  AgentSpec, DeploymentSpec, EnvironmentSpec, distinct, first_failing,
}
use infra_joint_planner.Registry.{OperatorRegistry, OperatorSpec, specs}
use infra_joint_planner.Resolver.{get_item}
use infra_joint_planner.Api.{WorkerDeploymentState, WorkerStateResponse}

-- `a == b` of two sets
unfoldable pub same_set : List String → List String → Bool
same_set a b = subset a b && subset b a

abbrev pub mismatch : Message → Exception
mismatch message = typed_execution_error surface_mismatch message

-- The deployment contract that the worker reports is the declared one.
unfoldable pub same_contract : WorkerDeploymentState → DeploymentSpec → Bool
unfolding same_set
same_contract actual expected =
    (actual.model_id == expected.model_id)
    && same_set actual.modalities expected.modalities
    && eqb actual.context_window expected.context_window
    && eqb actual.reserved_output_tokens expected.reserved_output_tokens
    && eqb actual.image_token_cost expected.image_token_cost

abbrev pub expected_operators : {H : Type 0} → OperatorRegistry H → AgentSpec → List String
expected_operators registry agent =
    keys (keep (λ e. subset e.1.capability_requirements agent.capabilities) (specs registry))

abbrev pub expected_deployments : EnvironmentSpec → String → Dict DeploymentSpec
expected_deployments environment agent_id =
    index_by (λ (d : DeploymentSpec). d.deployment_id)
      (keep (λ (d : DeploymentSpec). d.agent_id == agent_id) environment.deployments)

abbrev pub actual_deployments : WorkerStateResponse → Dict WorkerDeploymentState
actual_deployments state =
    index_by (λ (d : WorkerDeploymentState). d.deployment_id) state.deployments

unfoldable pub check_deployment_contract :
    Dict DeploymentSpec → String × WorkerDeploymentState → Result (Unit {0})
unfolding same_contract
check_deployment_contract expected (deployment_id, actual) = do
  expected_deployment ← get_item expected deployment_id
  require (same_contract actual expected_deployment)
      (mismatch (words "deployment contract mismatch: " ∷ name deployment_id ∷ []))

module _ {H : Type 0} (environment : EnvironmentSpec) (registry : OperatorRegistry H) where
  abbrev pub agents_by_id : Dict AgentSpec
  agents_by_id = index_by (λ (a : AgentSpec). a.agent_id) environment.agents

  -- The loop's body, for one worker.
  unfoldable pub check_worker : String × WorkerStateResponse → Result (Unit {0})
  unfolding same_set check_deployment_contract
  check_worker (agent_id, state) = do
    agent ← get_item agents_by_id agent_id
    require (same_set state.operators (expected_operators registry agent))
        (mismatch (words "operator surface mismatch on worker: " ∷ name agent_id ∷ []))
    require
        (same_set (keys (actual_deployments state))
          (keys (expected_deployments environment agent_id)))
        (mismatch (words "deployment IDs mismatch on worker: " ∷ name agent_id ∷ []))
    traverse (check_deployment_contract (expected_deployments environment agent_id))
        (actual_deployments state)
    ok tt

  abbrev pub known_owners : Option DeploymentSpec → Result (Unit {0})
  known_owners none = ok tt
  known_owners (some d) = err (key_error (name d.agent_id ∷ []))

  -- What follows when the workers have answered.
  unfoldable pub check_surfaces : Dict WorkerStateResponse → Result (Dict WorkerStateResponse)
  unfolding same_set check_worker
  check_surfaces by_agent =
      let expected_agents = map (λ (a : AgentSpec). a.agent_id) environment.agents in
      do
        require (same_set (keys by_agent) expected_agents)
            (mismatch (words "worker /state agent IDs do not match EnvironmentSpec" ∷ []))
        known_owners (
            first_failing (λ (d : DeploymentSpec). elem d.agent_id expected_agents)
              environment.deployments)
        traverse check_worker by_agent
        ok by_agent
