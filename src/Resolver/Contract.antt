-- ===== src/Resolver/Contract.antt =====
-- What `resolve` promises to the executor, over both kinds of operator.
use infra_joint_planner.Prelude.{
  String, ◌≡◌, sym, ◌⊎◌, inl, inr, Bool, true, false, List, [], ◌∷◌, none, some, if◌then◌else◌, map,
  In, Bool-cases, all-In, map-In, ◌∙◌,
}
use mathlib.Core.Path.{subst}
use infra_joint_planner.Prelude.Text.{elem}
use infra_joint_planner.Core.Errors.{
  Result, ok, err, Exception, words, names, binding_resolution_error, missing_input,
}
use infra_joint_planner.Core.Json.{Json}
use infra_joint_planner.Core.Action.{
  data_local, target_agent, target_deployment, PhysicalDecision, SemanticAction,
}
use infra_joint_planner.Core.State.{DeploymentSpec, EnvironmentSpec, InfrastructureState}
use infra_joint_planner.Registry.{OperatorSpec}
use infra_joint_planner.Resolver.{
  ResolvedBinding, is_empty, feasible_agents, resolve_agent, resolve_model, resolve,
}
use infra_joint_planner.Resolver.Inputs.{
  KnowsInputs, missing_inputs, none_missing, missing_none, locations_of, located_ok,
}
use infra_joint_planner.Resolver.Feasible.{IsFeasible, feasible_agents-IsFeasible}
use infra_joint_planner.Resolver.Agents.{
  Fits, local_everywhere, resolve_agent_sound, resolve_agent_errors,
}
use infra_joint_planner.Resolver.Models.{binding_of}
use infra_joint_planner.Resolver.Models.Placement.{Allows, IsPlaced, resolve_model_sound}
use infra_joint_planner.Resolver.Models.Failures.{
  IsBindingError, err-injective, resolve_model_errors,
}

module _ (render : Json → String) (decision : PhysicalDecision) (action : SemanticAction)
    (operator : OperatorSpec) (environment : EnvironmentSpec) (state : InfrastructureState) where
  abbrev pub feasible : List String
  feasible = feasible_agents operator environment state

  abbrev pub located : List (List String)
  located = map (locations_of state) action.inputs

  abbrev pub needs_model : Bool
  needs_model = elem "model" operator.capability_requirements

  abbrev pub resolved : Result ResolvedBinding
  resolved = resolve render decision action operator environment state

  -- Behind the test for missing inputs `resolve` is one of its two branches, at the locations.
  pub resolve_known :
      KnowsInputs state action.inputs
      → resolved ≡ (
          if needs_model
          then resolve_model render decision action feasible located environment state
          else resolve_agent decision.policy decision.target_agent_id feasible located)
  unfolding resolve
  resolve_known k = rw (missing_none state action.inputs k, located_ok state action.inputs k)

  resolve_missing :
      is_empty (missing_inputs state action.inputs) ≡ false
      → (e : Exception) × (resolved ≡ err e) × IsBindingError e
  unfolding resolve
  resolve_missing h = (
    binding_resolution_error missing_input (
        words "input artifacts are absent from infrastructure state: "
        ∷ names (missing_inputs state action.inputs)
        ∷ []),
    rw h,
    tt,
  )

  pub inputs_known : (b : ResolvedBinding) → resolved ≡ ok b → KnowsInputs state action.inputs
  inputs_known b h = elim (Bool-cases (is_empty (missing_inputs state action.inputs))) [
    | inl e ↦ none_missing state action.inputs e
    | inr e ↦ let (x, r, _) = resolve_missing e in absurd (cc)
  ]

  -- The two ways in which a resolution succeeds.
  pub data Outcome (b : ResolvedBinding) : Type 0 where
    plain :
        (a : String)
        → needs_model ≡ false
        → b ≡ record { agent_ids = a ∷ []; deployment_id = none }
        → In a feasible
        → Fits decision.policy decision.target_agent_id feasible located a
        → Outcome b
    modelled :
        (d : DeploymentSpec)
        → needs_model ≡ true
        → b ≡ binding_of d
        → IsPlaced render decision action feasible located environment state d
        → Outcome b

  pub outcome : (b : ResolvedBinding) → resolved ≡ ok b → Outcome b
  outcome b h = elim (Bool-cases needs_model) [
    | inl m ↦
        let (d, e, p) =
          resolve_model_sound render decision action feasible located environment state b
            (rw (resolve_known (inputs_known b h), m) at h) in
        modelled d m e p
    | inr m ↦
        let (a, e, f, fit) =
          resolve_agent_sound feasible located decision.policy decision.target_agent_id b
            (rw (resolve_known (inputs_known b h), m) at h) in
        plain a m e f fit
  ]

  -- A binding names exactly one agent, which the state reports as available, and which the environment
  -- declares with every capability that the operator requires.
  pub resolve-IsFeasible :
      (b : ResolvedBinding)
      → resolved ≡ ok b
      → (a : String) × (b.agent_ids ≡ a ∷ []) × IsFeasible operator environment state a
  resolve-IsFeasible b h = of_outcome (outcome b h)
    where
      of_outcome :
          Outcome b
          → (a : String) × (b.agent_ids ≡ a ∷ []) × IsFeasible operator environment state a
      of_outcome (plain a m e f fit) =
          (a, cc, feasible_agents-IsFeasible operator environment state a f)
      of_outcome (modelled d m e p) = (
        d.agent_id,
        cc,
        feasible_agents-IsFeasible operator environment state d.agent_id p.candidate.hosted,
      )

  -- Under `target_agent` a binding names the agent that the decision names, and no other.
  pub resolve_target_agent :
      (b : ResolvedBinding)
      → decision.policy ≡ target_agent
      → resolved ≡ ok b
      → (a : String) × (decision.target_agent_id ≡ some a) × (b.agent_ids ≡ a ∷ [])
  resolve_target_agent b t h = of_outcome (outcome b h)
    where
      of_outcome :
          Outcome b → (a : String) × (decision.target_agent_id ≡ some a) × (b.agent_ids ≡ a ∷ [])
      of_outcome (plain a m e f fit) =
          (a, subst (λ p. Fits p decision.target_agent_id feasible located a) t fit, cc)
      of_outcome (modelled d m e p) =
          (d.agent_id, subst (λ q. Allows q decision located d) t p.allowed, cc)

  -- Under `target_deployment` the operator needs a model, and a binding names the deployment that the
  -- decision names, which the environment declares, with that deployment's agent.
  pub resolve_target_deployment :
      (b : ResolvedBinding)
      → decision.policy ≡ target_deployment
      → resolved ≡ ok b
      → (d : DeploymentSpec) × (needs_model ≡ true)
        × In d environment.deployments
        × (decision.target_deployment_id ≡ some d.deployment_id)
        × (b ≡ binding_of d)
  resolve_target_deployment b t h = of_outcome (outcome b h)
    where
      of_outcome :
          Outcome b
          → (d : DeploymentSpec) × (needs_model ≡ true)
            × In d environment.deployments
            × (decision.target_deployment_id ≡ some d.deployment_id)
            × (b ≡ binding_of d)
      of_outcome (plain a m e f fit) =
          absurd (subst (λ p. Fits p decision.target_agent_id feasible located a) t fit)
      of_outcome (modelled d m e p) =
          (d, m, p.candidate.declared, subst (λ q. Allows q decision located d) t p.allowed, e)

  -- Under `data_local` the bound agent is one of the locations of every input.
  pub resolve_data_local :
      (b : ResolvedBinding)
      → decision.policy ≡ data_local
      → resolved ≡ ok b
      → (a : String) × (b.agent_ids ≡ a ∷ [])
        × ((i : String) → In i action.inputs → elem a (locations_of state i) ≡ true)
  resolve_data_local b t h = of_outcome (outcome b h)
    where
      everywhere :
          (a : String)
          → local_everywhere located a ≡ true
          → (i : String) → In i action.inputs
          → elem a (locations_of state i) ≡ true
      everywhere a l i m =
          all-In (locations_of state i) (λ locations. elem a locations) located l
            (map-In i (locations_of state) action.inputs m)

      of_outcome :
          Outcome b
          → (a : String) × (b.agent_ids ≡ a ∷ [])
            × ((i : String) → In i action.inputs → elem a (locations_of state i) ≡ true)
      of_outcome (plain a m e f fit) = (
        a,
        cc,
        everywhere a (subst (λ p. Fits p decision.target_agent_id feasible located a) t fit).0,
      )
      of_outcome (modelled d m e p) = (
        d.agent_id,
        cc,
        everywhere d.agent_id (subst (λ q. Allows q decision located d) t p.allowed),
      )

  -- A failed resolution raises a binding error: never a missing key, and never the internal error of
  -- an inconsistent preflight.
  pub resolve_errors : (e : Exception) → resolved ≡ err e → IsBindingError e
  resolve_errors e h = elim (Bool-cases (is_empty (missing_inputs state action.inputs))) [
    | inr missing ↦
        let (x, r, q) = resolve_missing missing in
        subst IsBindingError (err-injective (sym r ∙ h)) q
    | inl e' ↦ known (none_missing state action.inputs e') (Bool-cases needs_model)
  ]
    where
      known :
          KnowsInputs state action.inputs
          → (needs_model ≡ true) ⊎ (needs_model ≡ false)
          → IsBindingError e
      known k (inl m) =
          resolve_model_errors render decision action feasible located environment state e k
            (rw (resolve_known k, m) at h)
      known k (inr m) =
          let (msg, q) =
            resolve_agent_errors feasible located decision.policy decision.target_agent_id e
              (rw (resolve_known k, m) at h) in
          subst IsBindingError (sym q) tt
