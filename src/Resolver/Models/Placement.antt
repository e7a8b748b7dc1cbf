-- ===== src/Resolver/Models/Placement.antt =====
-- `resolve_model` as a whole: what the chosen deployment satisfies.
use mathlib.Core.Path.{subst}
use infra_joint_planner.Prelude.{
  String, ◌≡◌, ◌∙◌, refl, ap, sym, true, List, Option, none, some, arith, keep, map, In, In-keep,
  keep-In, In-map, map-In, eq_iff, not,
}
use infra_joint_planner.Prelude.Text.{elem, elem→In, In→elem}
use infra_joint_planner.Prelude.Dict.{
  lookup, index_by, values, In-values, has_key-index_by, lookup-index_by, lookup-values,
}
use infra_joint_planner.Core.State.References.{Distinct}
use infra_joint_planner.Resolver.Feasible.{Distinct-same}
use infra_joint_planner.Core.Errors.{Result, ok, require, traverse, >>=-eq-ok}
use infra_joint_planner.Core.Json.{Json}
use infra_joint_planner.Core.Action.{
  PhysicalPolicy, auto, data_local, target_agent, target_deployment, PhysicalDecision,
  SemanticAction,
}
use infra_joint_planner.Core.State.{
  DeploymentSpec, EnvironmentSpec, DeploymentRuntimeState, InfrastructureState,
}
use infra_joint_planner.Resolver.{
  ResolvedBinding, RequestError, is_value, is_empty, model_request_error, placed_candidates,
  ranking, model_candidates, choose_deployment, resolve_model,
}
use infra_joint_planner.Resolver.Agents.{local_everywhere}
use infra_joint_planner.Resolver.Models.{
  binding_of, checked, traverse-checked, checked-traverse, choose_deployment-least,
}

-- What the requested placement asks of a deployment.
abbrev pub Allows : PhysicalPolicy → PhysicalDecision → List (List String) → DeploymentSpec → Type 0
Allows target_deployment decision located d = decision.target_deployment_id ≡ some d.deployment_id
Allows target_agent decision located d = decision.target_agent_id ≡ some d.agent_id
Allows data_local decision located d = local_everywhere located d.agent_id ≡ true
Allows auto decision located d = Unit

is_value-eq : (a : String) (o : Option String) → is_value a o ≡ true → o ≡ some a
is_value-eq a none h = absurd (cc)
is_value-eq a (some b) h = ground (arith, eq_iff a b)

eq-is_value : (a : String) (o : Option String) → o ≡ some a → is_value a o ≡ true
eq-is_value a none h = absurd (cc)
eq-is_value a (some b) h = ground (arith, eq_iff a b)

module _ (decision : PhysicalDecision) (located : List (List String))
    (candidates : List DeploymentSpec) where
  placed_candidates-In :
      (p : PhysicalPolicy) (d : DeploymentSpec)
      → In d (placed_candidates p decision located candidates)
      → In d candidates × Allows p decision located d
  unfolding placed_candidates
  placed_candidates-In target_deployment d m =
      let (k, e) = In-keep d _ candidates m in
      (k, is_value-eq d.deployment_id decision.target_deployment_id e)
  placed_candidates-In target_agent d m =
      let (k, e) = In-keep d _ candidates m in
      (k, is_value-eq d.agent_id decision.target_agent_id e)
  placed_candidates-In data_local d m = In-keep d _ candidates m
  placed_candidates-In auto d m = (m, tt)

  In-placed_candidates :
      (p : PhysicalPolicy) (d : DeploymentSpec)
      → In d candidates
      → Allows p decision located d
      → In d (placed_candidates p decision located candidates)
  unfolding placed_candidates
  In-placed_candidates target_deployment d m a =
      keep-In d _ candidates m (eq-is_value d.deployment_id decision.target_deployment_id a)
  In-placed_candidates target_agent d m a =
      keep-In d _ candidates m (eq-is_value d.agent_id decision.target_agent_id a)
  In-placed_candidates data_local d m a = keep-In d _ candidates m a
  In-placed_candidates auto d m a = m

-- The environment declares the deployment, the state reports it as available, and its agent is
-- feasible.
pub record IsCandidate (feasible : List String) (environment : EnvironmentSpec)
    (state : InfrastructureState) (d : DeploymentSpec) : Type 0 where
  pub declared : In d environment.deployments
  pub report : DeploymentRuntimeState
  pub reported : In report state.deployments
  pub available : report.available ≡ true
  pub report_id : report.deployment_id ≡ d.deployment_id
  pub hosted : In d.agent_id feasible

module _ (feasible : List String) (environment : EnvironmentSpec)
    (state : InfrastructureState) where
  abbrev deployments_by_id : List (String × DeploymentSpec)
  deployments_by_id = index_by (λ (d : DeploymentSpec). d.deployment_id) environment.deployments

  abbrev available_ids : List String
  available_ids =
      map (λ (r : DeploymentRuntimeState). r.deployment_id)
        (keep (λ (r : DeploymentRuntimeState). r.available) state.deployments)

  model_candidates-IsCandidate :
      (d : DeploymentSpec)
      → In d (model_candidates feasible environment state)
      → IsCandidate feasible environment state d
  unfolding model_candidates
  model_candidates-IsCandidate d m =
      let (listed, fits) = In-keep d _ (values deployments_by_id) m in
      let up : elem d.deployment_id available_ids ≡ true = ground arith in
      let (r, kept, e) =
        In-map d.deployment_id (λ (r : DeploymentRuntimeState). r.deployment_id) _
          (elem→In d.deployment_id available_ids up) in
      let (reported, available) = In-keep r (λ (r : DeploymentRuntimeState). r.available) _ kept in
      record {
        declared =
            In-values (λ (d : DeploymentSpec). d.deployment_id) d environment.deployments listed;
        report = r;
        reported = reported;
        available = available;
        report_id = sym e;
        hosted = elem→In d.agent_id feasible (ground arith);
      }

  abbrev pub UniqueDeployments : Type 0
  UniqueDeployments =
      Distinct (map (λ (d : DeploymentSpec). d.deployment_id) environment.deployments)

  indexed :
      UniqueDeployments
      → (d : DeploymentSpec) → In d environment.deployments
      → In d (values deployments_by_id)
  indexed unique d m = found (lookup d.deployment_id deployments_by_id) refl
    where
      found :
          (o : Option DeploymentSpec)
          → lookup d.deployment_id deployments_by_id ≡ o
          → In d (values deployments_by_id)
      found none e =
          let has =
            has_key-index_by (λ (d : DeploymentSpec). d.deployment_id) d environment.deployments
              m in
          absurd (cc)
      found (some t) e =
          let (mt, same) =
            lookup-index_by (λ (d : DeploymentSpec). d.deployment_id) d.deployment_id t _ e in
          let dt =
            Distinct-same (λ (d : DeploymentSpec). d.deployment_id) d t environment.deployments
              unique m mt (sym same) in
          lookup-values (λ (d : DeploymentSpec). d.deployment_id) d.deployment_id d
            deployments_by_id (e ∙ ap (λ x. some x) (sym dt))

  -- With unique deployment ids every candidate is found.
  pub IsCandidate-model_candidates :
      UniqueDeployments
      → (d : DeploymentSpec) → IsCandidate feasible environment state d
      → In d (model_candidates feasible environment state)
  unfolding model_candidates
  IsCandidate-model_candidates unique d c =
      let kept =
        keep-In c.report (λ (r : DeploymentRuntimeState). r.available) state.deployments c.reported
          c.available in
      let up : elem d.deployment_id available_ids ≡ true = In→elem d.deployment_id available_ids (
        subst (λ i. In i available_ids) c.report_id
          (map-In c.report (λ (r : DeploymentRuntimeState). r.deployment_id) _ kept)) in
      keep-In d _ (values deployments_by_id) (indexed unique d c.declared)
        (rw up (In→elem d.agent_id feasible c.hosted))

-- The deployment that a model operator is bound to.
pub record IsPlaced (render : Json → String) (decision : PhysicalDecision) (action : SemanticAction)
    (feasible : List String) (located : List (List String)) (environment : EnvironmentSpec)
    (state : InfrastructureState) (d : DeploymentSpec) : Type 0 where
  pub candidate : IsCandidate feasible environment state d
  pub allowed : Allows decision.policy decision located d
  pub fits : model_request_error render d action state ≡ ok none
  pub least :
      (y : DeploymentSpec)
      → In y (model_candidates feasible environment state)
      → Allows decision.policy decision located y
      → model_request_error render y action state ≡ ok none
      → ranking located d y ≡ true

module _ (render : Json → String) (decision : PhysicalDecision) (action : SemanticAction)
    (feasible : List String) (located : List (List String)) (environment : EnvironmentSpec)
    (state : InfrastructureState) where
  abbrev pub placed : List DeploymentSpec
  placed =
      placed_candidates decision.policy decision located
        (model_candidates feasible environment state)

  abbrev pub check : DeploymentSpec → Result RequestError
  check item = model_request_error render item action state

  after_preflight :
      (pairs : List (DeploymentSpec × RequestError)) (b : ResolvedBinding)
      → traverse (checked check) placed ≡ ok pairs
      → choose_deployment located pairs ≡ ok b
      → (d : DeploymentSpec) × (b ≡ binding_of d)
        × IsPlaced render decision action feasible located environment state d
  after_preflight pairs b t h =
      let (d, e, m, least) = choose_deployment-least located pairs b h in
      let (listed, fits) = traverse-checked check placed pairs t (d, none) m in
      let (known, allowed) =
        placed_candidates-In decision located (model_candidates feasible environment state)
          decision.policy d listed in
      (
        d,
        e,
        record {
          candidate = model_candidates-IsCandidate feasible environment state d known;
          allowed = allowed;
          fits = fits;
          least = λ y my ay fy. least y (
              checked-traverse check placed pairs t y
                (In-placed_candidates decision located (model_candidates feasible environment state)
                  decision.policy y my ay)
                fy);
        },
      )

  pub resolve_model_sound :
      (b : ResolvedBinding)
      → resolve_model render decision action feasible located environment state ≡ ok b
      → (d : DeploymentSpec) × (b ≡ binding_of d)
        × IsPlaced render decision action feasible located environment state d
  unfolding resolve_model
  resolve_model_sound b h =
      let (u, e, h') = >>=-eq-ok (require (not (is_empty placed)) _) _ h in
      let (pairs, t, h'') = >>=-eq-ok (traverse (checked check) placed) _ h' in
      after_preflight pairs b t h''
