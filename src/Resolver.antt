-- ===== src/Resolver.antt =====
-- runtime/resolver.py: which agent, and for a model which deployment, runs an operator.
-- A Python set of agent ids is a list; every use of one is by membership, `min` or `sorted`.
mod Ranking
mod Inputs
mod Feasible
pub mod Agents
pub mod Models
pub mod Contract
pub mod Optimality
mod Tests
use Prim.Native.String.{len}
use text.Mathlib.Text.{starts_with}
use infra_joint_planner.Prelude.{
  ℕ, ◌+◌, ◌⊎◌, inl, inr, String, Bool, true, false, not, ◌&&◌, ◌||◌, List, [], ◌∷◌, Option, none,
  some, map, ◌==◌, if◌then◌else◌, ltb, eqb, keep, all, count_of, first,
}
use infra_joint_planner.Prelude.Text.{elem, subset, str_leb}
use infra_joint_planner.Prelude.Sorting.{sort_by}
use infra_joint_planner.Prelude.Dict.{Dict, lookup, has_key, values, index_by}
use infra_joint_planner.Core.Errors.{
  words, name, names, optional, number, Message, ResolutionErrorCode, infeasible_binding,
  missing_input, unsupported_modality, context_limit_exceeded, Result, ok, err, ◌>>=◌, ◌>>◌,
  require, traverse, or_raise, key_error, runtime_error, binding_resolution_error,
}
use infra_joint_planner.Core.Json.{Json, str, Fields, get_field}
use infra_joint_planner.Core.Action.{
  PhysicalPolicy, auto, data_local, target_agent, target_deployment, PhysicalDecision,
  SemanticAction,
}
use infra_joint_planner.Core.State.{
  AgentSpec, DeploymentSpec, EnvironmentSpec, AgentRuntimeState, DeploymentRuntimeState,
  ArtifactRuntimeState, InfrastructureState,
}
use infra_joint_planner.Registry.{OperatorSpec}

pub record ResolvedBinding : Type 0 where
  pub agent_ids : List String
  pub deployment_id : Option String

-- `d[k]`
abbrev pub get_item : {V : Type 0} → Dict V → String → Result V
get_item d k = or_raise (key_error (name k ∷ [])) (lookup k d)

-- `{item.artifact_id: item for item in state.artifacts}`
abbrev pub artifacts_by_id : InfrastructureState → Dict ArtifactRuntimeState
artifacts_by_id state = index_by (λ a. a.artifact_id) state.artifacts

abbrev pub is_empty : {A : Type 0} → List A → Bool
is_empty [] = true
is_empty (x ∷ xs) = false

-- `a == b` where `b` may be None
abbrev pub is_value : String → Option String → Bool
is_value a none = false
is_value a (some b) = a == b

-- `sum(agent_id not in artifact_locations[item] for item in action.inputs)`, over the inputs'
-- locations
unfoldable pub transfers_needed : List (List String) → String → ℕ
unfolding count_of elem
transfers_needed located agent_id = count_of (λ locations. not (elem agent_id locations)) located

-- The order of the keys `(number of transfers, id)`.
abbrev pub rank_leb : {A : Type 0} → (A → ℕ) → (A → String) → A → A → Bool
rank_leb cost id a b = ltb (cost a) (cost b) || (eqb (cost a) (cost b) && str_leb (id a) (id b))

unfoldable pub raise_no_feasible_agent : {A : Type 0} → Result A
raise_no_feasible_agent = err (
    binding_resolution_error infeasible_binding
      (words "no available agent satisfies the requested policy and capabilities" ∷ []))

-- The agents that are available, declared, and have the operator's capabilities.
unfoldable pub feasible_agents : OperatorSpec → EnvironmentSpec → InfrastructureState → List String
feasible_agents operator environment state =
    let agent_specs = index_by (λ (a : AgentSpec). a.agent_id) environment.agents in
    let available_agents =
      map (λ (a : AgentRuntimeState). a.agent_id)
        (keep (λ (a : AgentRuntimeState). a.available) state.agents) in
    keep
      (λ agent_id. elim (lookup agent_id agent_specs) [
        | none ↦ false
        | some spec ↦ subset operator.capability_requirements spec.capabilities
      ])
      available_agents

-- The least of the candidates, `min(candidates)` or `sorted(candidates, key=…)[0]`.
unfoldable pub choose_agent : (String → String → Bool) → List String → Result ResolvedBinding
unfolding raise_no_feasible_agent
choose_agent le candidates = elim (first (sort_by le candidates)) [
  | none ↦ raise_no_feasible_agent
  | some agent_id ↦ ok (record { agent_ids = agent_id ∷ []; deployment_id = none })
]

-- The part of `resolve` for an operator that needs no model, by policy and target agent.
unfoldable pub resolve_agent :
    PhysicalPolicy → Option String → List String → List (List String) → Result ResolvedBinding
resolve_agent target_agent none feasible located = err (
    binding_resolution_error infeasible_binding
      (words "explicit target agent is infeasible: " ∷ optional none ∷ []))
resolve_agent target_agent (some target) feasible located =
    if elem target feasible
    then ok (record { agent_ids = target ∷ []; deployment_id = none })
    else err (
        binding_resolution_error infeasible_binding
          (words "explicit target agent is infeasible: " ∷ optional (some target) ∷ []))
resolve_agent target_deployment target feasible located = err (
    binding_resolution_error infeasible_binding
      (words "non-model operator cannot target a model deployment" ∷ []))
resolve_agent data_local target feasible located =
    choose_agent str_leb
      (keep (λ agent_id. all (λ locations. elem agent_id locations) located) feasible)
resolve_agent auto target feasible located =
    choose_agent (rank_leb (transfers_needed located) (λ agent_id. agent_id)) feasible

abbrev pub text_type : String → Bool
text_type media_type =
    starts_with media_type "text/"
    || elem media_type ("application/json" ∷ "application/jsonl" ∷ "application/x-ndjson" ∷ [])

abbrev pub image_type : String → Bool
image_type media_type = starts_with media_type "image/"

abbrev pub RequestError : Type 0
RequestError = Option (ResolutionErrorCode × Message)

-- What one input adds to the estimate, or why the deployment cannot take it.
unfoldable pub artifact_estimate :
    DeploymentSpec → String → ArtifactRuntimeState → ℕ ⊎ (ResolutionErrorCode × Message)
artifact_estimate deployment artifact_id artifact =
    let unavailable : ℕ ⊎ (ResolutionErrorCode × Message) =
      inr
        (infeasible_binding, words "artifact metadata is unavailable: " ∷ name artifact_id ∷ []) in
    elim artifact.media_type [
      | none ↦ unavailable
      | some media_type ↦ elim artifact.size_bytes [
        | none ↦ unavailable
        | some size_bytes ↦
            if image_type media_type
            then (if not (elem "image" deployment.modalities)
                then inr (
                  unsupported_modality,
                  words "deployment does not support image artifact: " ∷ name artifact_id ∷ [],
                )
                else inl deployment.image_token_cost)
            else if text_type media_type
            then inl size_bytes
            else inr (
              unsupported_modality,
              words "unsupported model artifact media type: " ∷ name media_type ∷ [],
            )
      ]
    ]

abbrev pub then_estimate :
    ℕ ⊎ (ResolutionErrorCode × Message)
    → (ℕ → Result (ℕ ⊎ (ResolutionErrorCode × Message)))
    → Result (ℕ ⊎ (ResolutionErrorCode × Message))
then_estimate (inl n) next = next n
then_estimate (inr e) next = ok (inr e)

-- The loop of `_model_request_error` over the inputs, with the estimate so far.
unfoldable pub estimate_inputs :
    DeploymentSpec
    → Dict ArtifactRuntimeState
    → ℕ
    → List String
    → Result (ℕ ⊎ (ResolutionErrorCode × Message))
estimate_inputs deployment artifacts estimated [] = ok (inl estimated)
estimate_inputs deployment artifacts estimated (artifact_id ∷ inputs) = do
  artifact ← get_item artifacts artifact_id
  then_estimate (artifact_estimate deployment artifact_id artifact)
      (λ n. estimate_inputs deployment artifacts (estimated + n) inputs)

abbrev pub context_error : DeploymentSpec → ℕ ⊎ (ResolutionErrorCode × Message) → RequestError
context_error deployment (inr e) = some e
context_error deployment (inl estimated) =
    if ltb deployment.context_window (estimated + deployment.reserved_output_tokens)
    then some (
      context_limit_exceeded,
      words "context limit exceeded before transfer: estimated_input="
          ∷ number estimated
          ∷ words ", reserved_output="
          ∷ number deployment.reserved_output_tokens
          ∷ words ", context_window="
          ∷ number deployment.context_window
          ∷ [],
    )
    else none

-- The deployments that the requested placement leaves.
unfoldable pub placed_candidates :
    PhysicalPolicy
    → PhysicalDecision
    → List (List String)
    → List DeploymentSpec
    → List DeploymentSpec
placed_candidates target_deployment decision located candidates =
    keep (λ item. is_value item.deployment_id decision.target_deployment_id) candidates
placed_candidates target_agent decision located candidates =
    keep (λ item. is_value item.agent_id decision.target_agent_id) candidates
placed_candidates data_local decision located candidates =
    keep (λ item. all (λ locations. elem item.agent_id locations) located) candidates
placed_candidates auto decision located candidates = candidates

unfoldable pub model_candidates :
    List String → EnvironmentSpec → InfrastructureState → List DeploymentSpec
model_candidates feasible environment state =
    let deployments = index_by (λ (d : DeploymentSpec). d.deployment_id) environment.deployments in
    let available_deployments =
      map (λ (d : DeploymentRuntimeState). d.deployment_id)
        (keep (λ (d : DeploymentRuntimeState). d.available) state.deployments) in
    keep
      (λ deployment.
        elem deployment.deployment_id available_deployments && elem deployment.agent_id feasible)
      (values deployments)

-- The binding to the selected deployment, if there is one.
abbrev pub bind_selected : Option DeploymentSpec → Result ResolvedBinding → Result ResolvedBinding
bind_selected none otherwise = otherwise
bind_selected (some selected) otherwise =
    ok (record { agent_ids = selected.agent_id ∷ []; deployment_id = some selected.deployment_id })

abbrev pub ranking : List (List String) → DeploymentSpec → DeploymentSpec → Bool
ranking located =
    rank_leb (λ (item : DeploymentSpec). transfers_needed located item.agent_id)
      (λ item. item.deployment_id)

abbrev pub admitted : DeploymentSpec × RequestError → Bool
admitted (item, none) = true
admitted (item, some e) = false

abbrev pub raise_preflight : Option (DeploymentSpec × RequestError) → Result ResolvedBinding
raise_preflight (some (item, some (code, message))) = err (binding_resolution_error code message)
raise_preflight _ =
    err (runtime_error (words "model preflight produced an inconsistent result" ∷ []))

abbrev pub by_deployment_id : DeploymentSpec × RequestError → DeploymentSpec × RequestError → Bool
by_deployment_id a b = str_leb a.0.deployment_id b.0.deployment_id

-- The choice among the candidates after their preflight, with the inputs' locations.
unfoldable pub choose_deployment :
    List (List String) → List (DeploymentSpec × RequestError) → Result ResolvedBinding
choose_deployment located preflight =
    bind_selected (first (sort_by (ranking located) (map (λ p. p.0) (keep admitted preflight))))
      (raise_preflight (first (sort_by by_deployment_id preflight)))

-- Python's `str` of a JSON value that is not a text is a parameter.
module _ (render : Json → String) where
  abbrev pub shown : Json → String
  shown (str s) = s
  shown other = render other

  -- `str(action.arguments.get("prompt", ""))`
  abbrev pub prompt_of : Fields → String
  prompt_of arguments = elim (get_field "prompt" arguments) [ none ↦ "" | some v ↦ shown v ]

  unfoldable pub model_request_error :
      DeploymentSpec → SemanticAction → InfrastructureState → Result RequestError
  model_request_error deployment action state = do
    estimate ←
        estimate_inputs deployment (artifacts_by_id state) (len (prompt_of action.arguments))
          action.inputs
    ok (context_error deployment estimate)

  unfoldable pub resolve_model :
      PhysicalDecision
      → SemanticAction
      → List String
      → List (List String)
      → EnvironmentSpec
      → InfrastructureState
      → Result ResolvedBinding
  resolve_model decision action feasible located environment state =
      let candidates =
        placed_candidates decision.policy decision located
          (model_candidates feasible environment state) in
      do
        require (not (is_empty candidates)) (
            binding_resolution_error infeasible_binding
              (words "no available deployment satisfies the requested placement" ∷ []))
        preflight ←
            traverse (λ item. do error ← model_request_error item action state; ok (item, error))
              candidates
        choose_deployment located preflight

  -- `resolve` of the deterministic resolver. The inputs' locations are looked up once, behind the
  -- test that each is there.
  unfoldable pub resolve :
      PhysicalDecision
      → SemanticAction
      → OperatorSpec
      → EnvironmentSpec
      → InfrastructureState
      → Result ResolvedBinding
  resolve decision action operator environment state =
      let artifacts = artifacts_by_id state in
      let missing = keep (λ artifact_id. not (has_key artifact_id artifacts)) action.inputs in
      let feasible = feasible_agents operator environment state in
      do
        require (is_empty missing) (
            binding_resolution_error missing_input
              (words "input artifacts are absent from infrastructure state: " ∷ names missing ∷ []))
        located ←
            traverse
              (λ artifact_id. do artifact ← get_item artifacts artifact_id; ok artifact.locations)
              action.inputs
        if elem "model" operator.capability_requirements
            then resolve_model decision action feasible located environment state
            else resolve_agent decision.policy decision.target_agent_id feasible located
