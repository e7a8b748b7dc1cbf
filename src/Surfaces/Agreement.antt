-- ===== src/Surfaces/Agreement.antt =====
-- What accepted surfaces agree on.
use infra_joint_planner.Prelude.{String, ◌≡◌, inl, inr, ◌↔◌, List, some, In, Option-cases}
use infra_joint_planner.Prelude.Dict.{Dict, lookup, keys}
use infra_joint_planner.Core.Errors.{Exception, Result, ok, err}
use infra_joint_planner.Core.State.{AgentSpec, DeploymentSpec, EnvironmentSpec}
use infra_joint_planner.Registry.{OperatorRegistry, OperatorBinding}
use infra_joint_planner.Resolver.{get_item}
use infra_joint_planner.Api.{WorkerDeploymentState, WorkerStateResponse}
use infra_joint_planner.Surfaces.{expected_deployments, actual_deployments, agents_by_id}

-- The two lists have the same elements.
abbrev pub SameElements : List String → List String → Type 0
SameElements a b = (x : String) → In x a ↔ In x b

pub get_item-ok :
    {T : Type 0} (d : Dict T) (k : String) (v : T) → get_item d k ≡ ok v → lookup k d ≡ some v
get_item-ok {T = T} d k v h = elim (Option-cases (lookup k d)) [
  | inl e ↦ absurd (bad (rw e at h))
  | inr (u, e) ↦ let e' : ok u ≡ ok v = rw e at h in cc
]
  where
    bad : {x : Exception} → ◌≡◌ {A = Result T} (err x) (ok v) → ⊥
    bad q = cc

-- What the worker reports of a deployment is what the environment declares: its model, its set of
-- modalities, its limits and the cost of an image.
pub record Reports (actual : WorkerDeploymentState) (d : DeploymentSpec) : Type 0 where
  pub model_id : actual.model_id ≡ d.model_id
  pub modalities : SameElements actual.modalities d.modalities
  pub context_window : actual.context_window ≡ d.context_window
  pub reserved_output_tokens : actual.reserved_output_tokens ≡ d.reserved_output_tokens
  pub image_token_cost : actual.image_token_cost ≡ d.image_token_cost

-- The registry has an operator of that name whose requirements are all among the agent's
-- capabilities.
pub record IsOffered {H : Type 0} (registry : OperatorRegistry H) (agent : AgentSpec)
    (operator_id : String) : Type 0 where
  pub entry : OperatorBinding H
  pub registered : In (operator_id, entry) registry.bindings
  pub capable : (c : String) → In c entry.spec.capability_requirements → In c agent.capabilities

-- A worker offers the operators whose requirements its agent has, and the deployments that the
-- environment declares for it, each with the declared contract.
pub record WorkerAgrees {H : Type 0} (environment : EnvironmentSpec) (registry : OperatorRegistry H)
    (agent_id : String) (state : WorkerStateResponse) : Type 0 where
  pub agent : AgentSpec
  pub declared : lookup agent_id (agents_by_id environment registry) ≡ some agent
  pub operators : (o : String) → In o state.operators ↔ IsOffered registry agent o
  pub deployments :
      SameElements
        (keys (actual_deployments state))
        (keys (expected_deployments environment agent_id))
  pub contracts :
      (i : String) (actual : WorkerDeploymentState)
      → In (i, actual) (actual_deployments state)
      → (d : DeploymentSpec) × (lookup i (expected_deployments environment agent_id) ≡ some d)
        × Reports actual d
