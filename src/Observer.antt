-- ===== src/Observer.antt =====
-- infrastructure/observer.py: the snapshot of the infrastructure, built from the workers' answers.
-- The workers are asked one after the other.
use infra_joint_planner.Prelude.{
  ℕ, String, Bool, false, ◌&&◌, List, [], ◌∷◌, ◌++◌, Option, none, some, ◌==◌, map, eqb,
  if◌then◌else◌,
}
use infra_joint_planner.Prelude.Text.{elem, str_leb}
use infra_joint_planner.Prelude.Sorting.{sort_by}
use infra_joint_planner.Prelude.Dict.{Dict, lookup, insert, has_key}
use infra_joint_planner.Core.Errors.{
  words, name, Result, ok, err, ◌>>=◌, ◌>>◌, require, traverse, runtime_error,
}
use infra_joint_planner.Core.State.{
  AgentSpec, DeploymentSpec, LinkSpec, EnvironmentSpec, AgentRuntimeState, DeploymentRuntimeState,
  ArtifactRuntimeState, LinkRuntimeState, InfrastructureState, Datetime, check_artifact_state,
  timestamp_is_timezone_aware,
}
use infra_joint_planner.Resolver.{get_item}
use infra_joint_planner.Api.{
  ArtifactMetadata, WorkerDeploymentState, WorkerStateResponse, WorkerClient,
}
use infra_joint_planner.Effects.{Effect, Platform}

-- What a probe returns of an answer: none stands for an exception, which is what it becomes.
abbrev answered : String → Result WorkerStateResponse → Option WorkerStateResponse
answered agent_id (ok state) = if state.agent_id == agent_id then some state else none
answered agent_id (err e) = none

abbrev probe_client :
    {W : Type 0} → String → Option (WorkerClient W) → W → Option WorkerStateResponse × W
probe_client agent_id none w = (none, w)
probe_client agent_id (some client) w =
    let (result, after) = client.get_state w in (answered agent_id result, after)

unfoldable pub probe :
    {W : Type 0} → Dict (WorkerClient W) → String → W → Option WorkerStateResponse × W
probe worker_clients agent_id w = probe_client agent_id (lookup agent_id worker_clients) w

abbrev add_answer :
    String → Option WorkerStateResponse → Dict WorkerStateResponse → Dict WorkerStateResponse
add_answer agent_id none states = states
add_answer agent_id (some state) states = insert agent_id state states

-- `worker_states`: the answers by agent, in the order of the agents.
unfoldable pub probe_all :
    {W : Type 0}
    → Dict (WorkerClient W)
    → List String
    → Dict WorkerStateResponse
    → W
    → Dict WorkerStateResponse × W
unfolding probe
probe_all worker_clients [] states w = (states, w)
probe_all worker_clients (agent_id ∷ rest) states w =
    let (answer, after) = probe worker_clients agent_id w in
    probe_all worker_clients rest (add_answer agent_id answer states) after

abbrev in_flight_of : Option WorkerStateResponse → ℕ
in_flight_of none = 0
in_flight_of (some state) = state.in_flight

unfoldable pub agent_state : Dict WorkerStateResponse → AgentSpec → AgentRuntimeState
agent_state worker_states agent = record {
  agent_id = agent.agent_id;
  available = has_key agent.agent_id worker_states;
  in_flight = in_flight_of (lookup agent.agent_id worker_states);
  queue_depth = none;
}

abbrev offers : String → Option WorkerStateResponse → Bool
offers deployment_id none = false
offers deployment_id (some state) =
    elem deployment_id (map (λ (d : WorkerDeploymentState). d.deployment_id) state.deployments)

unfoldable pub deployment_state : Dict WorkerStateResponse → DeploymentSpec → DeploymentRuntimeState
deployment_state worker_states deployment = record {
  deployment_id = deployment.deployment_id;
  available = offers deployment.deployment_id (lookup deployment.agent_id worker_states);
}

-- What has been gathered of the artifacts: where each is, and its metadata.
pub record Gathered : Type 0 where
  pub artifact_locations : Dict (List String)
  pub artifact_metadata : Dict ArtifactMetadata

abbrev same_metadata : ArtifactMetadata → ArtifactMetadata → Bool
same_metadata a b =
    (a.media_type == b.media_type)
    && eqb a.size_bytes b.size_bytes
    && (a.sha256_hex == b.sha256_hex)

-- `d.setdefault(k, v)`, its result and the dictionary
abbrev set_default : {V : Type 0} → String → V → Option V → Dict V → V × Dict V
set_default k v none d = (v, insert k v d)
set_default k v (some u) d = (u, d)

unfoldable pub gather_artifact : String → ArtifactMetadata → Gathered → Result Gathered
gather_artifact agent_id artifact gathered =
    let i = artifact.artifact_id in
    let (existing, metadata) =
      set_default i artifact (lookup i gathered.artifact_metadata) gathered.artifact_metadata in
    let (locations, places) =
      set_default i [] (lookup i gathered.artifact_locations) gathered.artifact_locations in
    do
      require (same_metadata existing artifact)
          (runtime_error (words "workers report inconsistent artifact metadata: " ∷ name i ∷ []))
      ok (record {
        artifact_locations = insert i (locations ++ agent_id ∷ []) places;
        artifact_metadata = metadata;
      })

unfoldable pub gather_artifacts : String → List ArtifactMetadata → Gathered → Result Gathered
unfolding gather_artifact
gather_artifacts agent_id [] gathered = ok gathered
gather_artifacts agent_id (artifact ∷ rest) gathered = do
  next ← gather_artifact agent_id artifact gathered
  gather_artifacts agent_id rest next

unfoldable pub gather : Dict WorkerStateResponse → Gathered → Result Gathered
unfolding gather_artifacts
gather [] gathered = ok gathered
gather ((agent_id, state) ∷ rest) gathered = do
  next ← gather_artifacts agent_id state.artifacts gathered
  gather rest next

unfoldable pub artifact_state :
    Dict ArtifactMetadata → String × List String → Result ArtifactRuntimeState
artifact_state artifact_metadata (artifact_id, locations) = do
  metadata ← get_item artifact_metadata artifact_id
  check_artifact_state (record {
    artifact_id = artifact_id;
    locations = sort_by str_leb locations;
    media_type = some metadata.media_type;
    size_bytes = some metadata.size_bytes;
    sha256_hex = some metadata.sha256_hex;
  })

unfoldable pub link_state : Dict WorkerStateResponse → LinkSpec → LinkRuntimeState
link_state worker_states link = record {
  source_agent_id = link.source_agent_id;
  target_agent_id = link.target_agent_id;
  available =
      has_key link.source_agent_id worker_states && has_key link.target_agent_id worker_states;
  bandwidth_mbps = link.bandwidth_mbps;
  rtt_ms = link.rtt_ms;
}

-- The snapshot, from the workers that have answered and the time.
unfoldable pub snapshot :
    EnvironmentSpec → Dict WorkerStateResponse → Datetime → Result InfrastructureState
unfolding gather artifact_state
snapshot environment worker_states now = do
  gathered ← gather worker_states (record { artifact_locations = []; artifact_metadata = [] })
  artifacts ←
      traverse (artifact_state gathered.artifact_metadata)
        (sort_by (λ a b. str_leb a.0 b.0) gathered.artifact_locations)
  observed_at ← timestamp_is_timezone_aware now
  ok (record {
    agents = map (agent_state worker_states) environment.agents;
    deployments = map (deployment_state worker_states) environment.deployments;
    artifacts = artifacts;
    links = map (link_state worker_states) environment.links;
    observed_at = observed_at;
  })

-- `LiveWorkerObserver.observe`
unfoldable pub observe :
    {W : Type 0}
    → Platform W
    → EnvironmentSpec
    → Dict (WorkerClient W)
    → Effect W InfrastructureState
unfolding probe_all snapshot
observe platform environment worker_clients w =
    let (worker_states, probed) =
      probe_all worker_clients (map (λ (a : AgentSpec). a.agent_id) environment.agents) [] w in
    let (now, after) = platform.now probed in (snapshot environment worker_states now, after)
