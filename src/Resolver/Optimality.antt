-- ===== src/Resolver/Optimality.antt =====
-- Automatic placement: it succeeds whenever it can, and it needs the fewest transfers.
use mathlib.Core.Path.{subst}
use infra_joint_planner.Prelude.{
  ℕ, ◌<◌, String, ◌≡◌, ◌⊎◌, ◌↔◌, Bool, true, false, List, [], ◌∷◌, In, none,
}
use infra_joint_planner.Prelude.Text.{str_leb}
use infra_joint_planner.Core.Errors.{Result, ok}
use infra_joint_planner.Core.Json.{Json}
use infra_joint_planner.Core.Action.{auto, PhysicalDecision, SemanticAction}
use infra_joint_planner.Core.State.{DeploymentSpec, EnvironmentSpec, InfrastructureState}
use infra_joint_planner.Core.State.References.{Distinct, agent_ids}
use infra_joint_planner.Registry.{OperatorSpec}
use infra_joint_planner.Resolver.{ResolvedBinding, transfers_needed, model_request_error}
use infra_joint_planner.Resolver.Inputs.{KnowsInputs}
use infra_joint_planner.Resolver.Ranking.{rank_leb-le}
use infra_joint_planner.Resolver.Feasible.{
  IsFeasible, feasible_agents-IsFeasible, IsFeasible-feasible_agents,
}
use infra_joint_planner.Resolver.Agents.{Fits, resolve_agent_auto}
use infra_joint_planner.Resolver.Models.{binding_of}
use infra_joint_planner.Resolver.Models.Placement.{
  Allows, IsCandidate, UniqueDeployments, IsCandidate-model_candidates,
}
use infra_joint_planner.Resolver.Contract.{
  feasible, located, needs_model, resolved, resolve_known, inputs_known, Outcome, plain, modelled,
  outcome,
}

module _ (render : Json → String) (decision : PhysicalDecision) (action : SemanticAction)
    (operator : OperatorSpec) (environment : EnvironmentSpec) (state : InfrastructureState) where
  abbrev agents : List String
  agents = feasible render decision action operator environment state

  abbrev places : List (List String)
  places = located render decision action operator environment state

  abbrev model : Bool
  model = needs_model render decision action operator environment state

  abbrev result : Result ResolvedBinding
  result = resolved render decision action operator environment state

  abbrev ResultOf : ResolvedBinding → Type 0
  ResultOf = Outcome render decision action operator environment state

  -- Without a model, automatic placement succeeds exactly when the state knows every input and some
  -- agent is feasible; agent ids are unique in the environment.
  pub resolve_auto_iff :
      Distinct (agent_ids environment)
      → model ≡ false
      → decision.policy ≡ auto
      → ((b : ResolvedBinding) × (result ≡ ok b)) ↔ (
          KnowsInputs state action.inputs
          × ((a : String) × IsFeasible operator environment state a))
  resolve_auto_iff unique m p = (to, from)
    where
      of_outcome :
          (b : ResolvedBinding)
          → ResultOf b
          → (a : String) × IsFeasible operator environment state a
      of_outcome b (plain a _ e f fit) =
          (a, feasible_agents-IsFeasible operator environment state a f)
      of_outcome b (modelled d _ e q) = (
        d.agent_id,
        feasible_agents-IsFeasible operator environment state d.agent_id q.candidate.hosted,
      )

      to :
          ((b : ResolvedBinding) × (result ≡ ok b))
          → KnowsInputs state action.inputs
            × ((a : String) × IsFeasible operator environment state a)
      to (b, h) = (
        inputs_known render decision action operator environment state b h,
        of_outcome b (outcome render decision action operator environment state b h),
      )

      from :
          KnowsInputs state action.inputs × ((a : String) × IsFeasible operator environment state a)
          → (b : ResolvedBinding) × (result ≡ ok b)
      from (k, (a, f)) =
          let (b, e) =
            resolve_agent_auto agents places decision.target_agent_id a
              (IsFeasible-feasible_agents operator environment state unique a f) in
          (b, rw (resolve_known render decision action operator environment state k, m, p) e)

  abbrev pub Cheaper : ℕ → String → ℕ → String → Type 0
  Cheaper n a m b = (n < m) ⊎ (n ≡ m) × (str_leb a b ≡ true)

  -- Without a model, the agent that automatic placement binds needs no more transfers than any other
  -- feasible agent, and has the least id among those that need as few.
  pub resolve_auto_least :
      (b : ResolvedBinding)
      → model ≡ false
      → decision.policy ≡ auto
      → result ≡ ok b
      → (a : String) × (b.agent_ids ≡ a ∷ [])
        × ((y : String)
            → In y agents
            → Cheaper (transfers_needed places a) a (transfers_needed places y) y)
  resolve_auto_least b m p h =
      of_outcome (outcome render decision action operator environment state b h)
    where
      of_outcome :
          ResultOf b
          → (a : String) × (b.agent_ids ≡ a ∷ [])
            × ((y : String)
                → In y agents
                → Cheaper (transfers_needed places a) a (transfers_needed places y) y)
      of_outcome (plain a _ e f fit) = (
        a,
        cc,
        λ y my.
            rank_leb-le (transfers_needed places) (λ i. i) a y
              (subst (λ q. Fits q decision.target_agent_id agents places a) p fit y my),
      )
      of_outcome (modelled d m' e q) = absurd (cc)

  -- A model operator is bound to a deployment whose request passes the context and modality
  -- preflight. Among all declared deployments that the state reports as available, on feasible agents,
  -- that the placement allows and that pass, its agent needs the fewest transfers, and its id is the least of those that need as few;
  -- deployment ids are unique in the environment.
  pub resolve_model_least :
      (b : ResolvedBinding)
      → UniqueDeployments agents environment state
      → model ≡ true
      → result ≡ ok b
      → (d : DeploymentSpec) × (b ≡ binding_of d)
        × IsCandidate agents environment state d
        × (model_request_error render d action state ≡ ok none)
        × ((y : DeploymentSpec)
            → IsCandidate agents environment state y
            → Allows decision.policy decision places y
            → model_request_error render y action state ≡ ok none
            → Cheaper
                (transfers_needed places d.agent_id)
                d.deployment_id
                (transfers_needed places y.agent_id)
                y.deployment_id)
  resolve_model_least b unique m h =
      of_outcome (outcome render decision action operator environment state b h)
    where
      of_outcome :
          ResultOf b
          → (d : DeploymentSpec) × (b ≡ binding_of d)
            × IsCandidate agents environment state d
            × (model_request_error render d action state ≡ ok none)
            × ((y : DeploymentSpec)
                → IsCandidate agents environment state y
                → Allows decision.policy decision places y
                → model_request_error render y action state ≡ ok none
                → Cheaper
                    (transfers_needed places d.agent_id)
                    d.deployment_id
                    (transfers_needed places y.agent_id)
                    y.deployment_id)
      of_outcome (plain a m' e f fit) = absurd (cc)
      of_outcome (modelled d _ e q) = (
        d,
        e,
        q.candidate,
        q.fits,
        λ y cy ay fy.
            rank_leb-le (λ (x : DeploymentSpec). transfers_needed places x.agent_id)
              (λ x. x.deployment_id) d y
              (q.least y (IsCandidate-model_candidates agents environment state unique y cy) ay fy),
      )
