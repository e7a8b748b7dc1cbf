-- ===== src/Resolver/Feasible.antt =====
-- The feasible agents, against what the environment and the state say.
use mathlib.Core.Path.{subst}
use infra_joint_planner.Prelude.{
  String, ◌≡◌, refl, sym, inl, inr, Bool, true, false, List, [], ◌∷◌, Option, none, some, map, keep,
  In, In-keep, keep-In, In-map, map-In,
}
use infra_joint_planner.Prelude.Text.{subset}
use infra_joint_planner.Prelude.Dict.{Dict, lookup, index_by, lookup-index_by, has_key-index_by}
use infra_joint_planner.Core.State.{
  AgentSpec, AgentRuntimeState, EnvironmentSpec, InfrastructureState,
}
use infra_joint_planner.Core.State.References.{Distinct, agent_ids}
use infra_joint_planner.Registry.{OperatorSpec}
use infra_joint_planner.Resolver.{feasible_agents}

module _ (operator : OperatorSpec) (environment : EnvironmentSpec)
    (state : InfrastructureState) where
  -- The state reports the agent as available, and the environment declares it with every capability
  -- that the operator requires.
  pub record IsFeasible (a : String) : Type 0 where
    pub report : AgentRuntimeState
    pub reported : In report state.agents
    pub available : report.available ≡ true
    pub report_id : report.agent_id ≡ a
    pub spec : AgentSpec
    pub declared : In spec environment.agents
    pub spec_id : spec.agent_id ≡ a
    pub capable : subset operator.capability_requirements spec.capabilities ≡ true

  abbrev capable_spec : Option AgentSpec → Bool
  capable_spec none = false
  capable_spec (some spec) = subset operator.capability_requirements spec.capabilities

  abbrev specs_by_id : Dict AgentSpec
  specs_by_id = index_by (λ (a : AgentSpec). a.agent_id) environment.agents

  capable_found :
      (o : Option AgentSpec)
      → capable_spec o ≡ true
      → (s : AgentSpec) × (o ≡ some s) × (capable_spec (some s) ≡ true)
  capable_found none h = absurd (cc)
  capable_found (some s) h = (s, refl, h)

  pub feasible_agents-IsFeasible :
      (a : String) → In a (feasible_agents operator environment state) → IsFeasible a
  unfolding feasible_agents
  feasible_agents-IsFeasible a m =
      let (listed, fits) = In-keep a (λ agent_id. capable_spec (lookup agent_id specs_by_id)) _ m in
      let (r, kept, e) = In-map a (λ (r : AgentRuntimeState). r.agent_id) _ listed in
      let (reported, up) = In-keep r (λ (r : AgentRuntimeState). r.available) _ kept in
      let (s, at, capable) = capable_found (lookup a specs_by_id) fits in
      let (declared, spec_id) = lookup-index_by (λ (a : AgentSpec). a.agent_id) a s _ at in
      record {
        report = r;
        reported = reported;
        available = up;
        report_id = sym e;
        spec = s;
        declared = declared;
        spec_id = spec_id;
        capable = capable;
      }

abbrev available_ids : InfrastructureState → List String
available_ids state =
    map (λ (r : AgentRuntimeState). r.agent_id)
      (keep (λ (r : AgentRuntimeState). r.available) state.agents)

-- Elements with one id are one, where ids are distinct.
pub Distinct-same :
    {A : Type 0} (key : A → String) (a b : A) (xs : List A)
    → Distinct (map key xs)
    → In a xs
    → In b xs
    → key a ≡ key b
    → a ≡ b
Distinct-same key a b [] u ma mb e = absurd ma
Distinct-same key a b (x ∷ xs) u (inl p) (inl q) e = cc
Distinct-same key a b (x ∷ xs) u (inl p) (inr mb) e =
    let k : key b ≡ key x = cc in
    absurd (u.0 (subst (λ i. In i (map key xs)) k (map-In b key xs mb)))
Distinct-same key a b (x ∷ xs) u (inr ma) (inl q) e =
    let k : key a ≡ key x = cc in
    absurd (u.0 (subst (λ i. In i (map key xs)) k (map-In a key xs ma)))
Distinct-same key a b (x ∷ xs) u (inr ma) (inr mb) e = Distinct-same key a b xs u.1 ma mb e

module _ (operator : OperatorSpec) (environment : EnvironmentSpec) (state : InfrastructureState)
    (unique : Distinct (agent_ids environment)) where
  spec_found :
      (s : AgentSpec)
      → In s environment.agents
      → lookup s.agent_id (specs_by_id operator environment state) ≡ some s
  spec_found s m = found (lookup s.agent_id (specs_by_id operator environment state)) refl
    where
      found :
          (o : Option AgentSpec)
          → lookup s.agent_id (specs_by_id operator environment state) ≡ o
          → lookup s.agent_id (specs_by_id operator environment state) ≡ some s
      found none e =
          absurd (cc (e, has_key-index_by (λ (a : AgentSpec). a.agent_id) s environment.agents m))
      found (some t) e =
          let (mt, same) = lookup-index_by (λ (a : AgentSpec). a.agent_id) s.agent_id t _ e in
          let st : s ≡ t =
            Distinct-same (λ (a : AgentSpec). a.agent_id) s t environment.agents unique m mt
              (sym same) in
          cc

  -- With unique agent ids every feasible agent is found.
  pub IsFeasible-feasible_agents :
      (a : String)
      → IsFeasible operator environment state a
      → In a (feasible_agents operator environment state)
  unfolding feasible_agents
  IsFeasible-feasible_agents a f =
      keep-In a
        (λ i.
          capable_spec operator environment state
            (lookup i (specs_by_id operator environment state)))
        (available_ids state)
        (subst (λ i. In i (available_ids state)) f.report_id
          (map-In f.report (λ (r : AgentRuntimeState). r.agent_id) _
            (keep-In f.report (λ (r : AgentRuntimeState). r.available) _ f.reported f.available)))
        (rw (← f.spec_id, spec_found f.spec f.declared) f.capable)
