-- ===== src/Surfaces/Validate.antt =====
-- infrastructure/validation.py: `validate_worker_surfaces`, which asks the workers.
use infra_joint_planner.Prelude.{String, [], ◌∷◌, map, if◌then◌else◌, not}
use infra_joint_planner.Prelude.Text.{str_leb}
use infra_joint_planner.Prelude.Sorting.{sort_by}
use infra_joint_planner.Prelude.Dict.{Dict, keys, index_by}
use infra_joint_planner.Core.Errors.{words}
use infra_joint_planner.Core.State.{AgentSpec, EnvironmentSpec, distinct}
use infra_joint_planner.Registry.{OperatorRegistry}
use infra_joint_planner.Resolver.{get_item}
use infra_joint_planner.Api.{WorkerClient, WorkerStateResponse}
use infra_joint_planner.Effects.{Effect, raise, lift, ◌>>=◌, for_each}
use infra_joint_planner.Surfaces.{same_set, mismatch, check_surfaces}

unfoldable pub ask : {W : Type 0} → Dict (WorkerClient W) → String → Effect W WorkerStateResponse
ask worker_clients agent_id = do client ← lift (get_item worker_clients agent_id); client.get_state

unfoldable pub validate_worker_surfaces :
    {W H : Type 0}
    → EnvironmentSpec
    → OperatorRegistry H
    → Dict (WorkerClient W)
    → Effect W (Dict WorkerStateResponse)
validate_worker_surfaces environment registry worker_clients =
    let expected_agents = map (λ (a : AgentSpec). a.agent_id) environment.agents in
    if not (same_set (keys worker_clients) expected_agents)
    then raise (
        mismatch
          (words "configured worker clients do not exactly match EnvironmentSpec agents" ∷ []))
    else do
      states ← for_each (ask worker_clients) (sort_by str_leb (distinct expected_agents))
      lift (
          check_surfaces environment registry
            (index_by (λ (s : WorkerStateResponse). s.agent_id) states))
