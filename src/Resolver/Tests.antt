-- ===== src/Resolver/Tests.antt =====
-- A small infrastructure at which the properties of runtime/resolver.py are run.
use infra_joint_planner.Prelude.{
  String, ◌≡◌, refl, ◌↔◌, true, false, List, [], ◌∷◌, Option, none, some, keep, map, In, all,
  count_of,
}
use infra_joint_planner.Prelude.Text.{elem, subset, str_leb}
use infra_joint_planner.Prelude.Dict.{lookup, insert, index_by}
use infra_joint_planner.Prelude.Sorting.{sort_by, insert_sorted}
use infra_joint_planner.Core.Errors.{
  Result, ok, err, traverse, words, binding_resolution_error, infeasible_binding, optional,
}
use infra_joint_planner.Core.Json.{Json, str, end, field, get_field}
use infra_joint_planner.Core.Action.{
  PhysicalPolicy, auto, data_local, target_agent, target_deployment, PhysicalDecision,
  SemanticAction,
}
use infra_joint_planner.Core.State.{
  DeploymentSpec, EnvironmentSpec, InfrastructureState, is_unique, distinct,
}
use infra_joint_planner.Core.State.References.{Distinct, agent_ids, is_unique-Distinct}
use infra_joint_planner.Registry.{OperatorSpec}
use infra_joint_planner.Resolver.{
  ResolvedBinding, transfers_needed, feasible_agents, choose_agent, resolve_agent,
  artifact_estimate, estimate_inputs, placed_candidates, model_candidates, choose_deployment,
  model_request_error, resolve_model, resolve,
}
use infra_joint_planner.Resolver.Inputs.{KnowsInputs, locations_of}
use infra_joint_planner.Resolver.Feasible.{IsFeasible}
use infra_joint_planner.Resolver.Models.{binding_of}
use infra_joint_planner.Resolver.Models.Placement.{Allows, IsCandidate, UniqueDeployments}
use infra_joint_planner.Resolver.Models.Failures.{IsBindingError}
use infra_joint_planner.Resolver.Contract.{
  feasible, needs_model, resolved, resolve-IsFeasible, resolve_target_agent,
  resolve_target_deployment, resolve_data_local, resolve_errors,
}
use infra_joint_planner.Resolver.Optimality.{
  Cheaper, resolve_auto_iff, resolve_auto_least, resolve_model_least,
}

-- `cloud` runs the deployment `m`, `edge` holds the document.
abbrev environment : EnvironmentSpec
environment = record {
  agents =
      record { agent_id = "cloud"; device = "gpu"; capabilities = "text" ∷ "model" ∷ [] }
      ∷ record { agent_id = "edge"; device = "phone"; capabilities = "text" ∷ [] }
      ∷ [];
  deployments =
      record {
        deployment_id = "m";
        agent_id = "cloud";
        model_id = "vlm";
        modalities = "text" ∷ [];
        context_window = 100;
        reserved_output_tokens = 20;
        image_token_cost = 50;
      }
      ∷ [];
  initial_placements = [];
  links = [];
}

abbrev state : InfrastructureState
state = record {
  agents =
      record { agent_id = "edge"; available = true; in_flight = 0; queue_depth = none }
      ∷ record { agent_id = "cloud"; available = true; in_flight = 1; queue_depth = none }
      ∷ [];
  deployments = record { deployment_id = "m"; available = true } ∷ [];
  artifacts =
      record {
        artifact_id = "doc";
        locations = "edge" ∷ [];
        media_type = some "text/plain";
        size_bytes = some 40;
        sha256_hex = none;
      }
      ∷ [];
  links = [];
  observed_at = record { instant = 0; utc_offset = some (false, 0) };
}

abbrev reads : SemanticAction
reads = record {
  operator = "read";
  inputs = "doc" ∷ [];
  arguments = field "prompt" (str "why") end;
}

abbrev decide : PhysicalPolicy → Option String → Option String → PhysicalDecision
decide policy agent deployment = record {
  policy = policy;
  target_agent_id = agent;
  target_deployment_id = deployment;
}

abbrev operator : List String → OperatorSpec
operator capabilities = record {
  operator_id = "read";
  description = "reads a document";
  input_schema = end;
  argument_schema = end;
  output_schema = end;
  capability_requirements = capabilities;
}

abbrev show : Json → String
show j = "?"

abbrev at_agent : String → ResolvedBinding
at_agent a = record { agent_ids = a ∷ []; deployment_id = none }

abbrev on_model : ResolvedBinding
on_model = record { agent_ids = "cloud" ∷ []; deployment_id = some "m" }

abbrev run : PhysicalDecision → List String → Result ResolvedBinding
run d capabilities = resolved show d reads (operator capabilities) environment state

automatic : run (decide auto none none) ("text" ∷ []) ≡ ok (at_agent "edge")
unfolding resolve feasible_agents resolve_agent choose_agent sort_by insert_sorted transfers_needed
    keep all count_of elem subset str_leb lookup index_by traverse insert
automatic = refl

local : run (decide data_local none none) ("text" ∷ []) ≡ ok (at_agent "edge")
unfolding resolve feasible_agents resolve_agent choose_agent sort_by insert_sorted transfers_needed
    keep all count_of elem subset str_leb lookup index_by traverse insert
local = refl

targeted : run (decide target_agent (some "cloud") none) ("text" ∷ []) ≡ ok (at_agent "cloud")
unfolding resolve feasible_agents resolve_agent keep all elem subset lookup index_by traverse insert
targeted = refl

infeasible :
    run (decide target_agent (some "moon") none) ("text" ∷ [])
    ≡ err (
        binding_resolution_error infeasible_binding
          (words "explicit target agent is infeasible: " ∷ optional (some "moon") ∷ []))
unfolding resolve feasible_agents resolve_agent keep all elem subset lookup index_by traverse insert
infeasible = refl

abbrev with_model : List String
with_model = "model" ∷ []

deployed : run (decide target_deployment none (some "m")) with_model ≡ ok on_model
unfolding resolve feasible_agents resolve_model keep all elem subset lookup index_by traverse insert
    placed_candidates model_candidates model_request_error estimate_inputs artifact_estimate
    choose_deployment sort_by get_field
deployed = refl

resolve-IsFeasible_example :
    (a : String) × (("edge" ∷ []) ≡ a ∷ [])
    × IsFeasible (operator ("text" ∷ [])) environment state a
resolve-IsFeasible_example =
    resolve-IsFeasible show (decide auto none none) reads (operator ("text" ∷ [])) environment state
      (at_agent "edge") automatic

resolve_target_agent_example :
    (a : String) × ◌≡◌ {A = Option String} (some "cloud") (some a) × (("cloud" ∷ []) ≡ a ∷ [])
resolve_target_agent_example =
    resolve_target_agent show (decide target_agent (some "cloud") none) reads
      (operator ("text" ∷ [])) environment state (at_agent "cloud") refl targeted

resolve_target_deployment_example :
    (d : DeploymentSpec) × (needs_model show
        (decide target_deployment none (some "m"))
        reads
        (operator with_model)
        environment
        state
      ≡ true)
    × In d environment.deployments
    × ◌≡◌ {A = Option String} (some "m") (some d.deployment_id)
    × (on_model ≡ binding_of d)
resolve_target_deployment_example =
    resolve_target_deployment show (decide target_deployment none (some "m")) reads
      (operator with_model) environment state on_model refl deployed

resolve_data_local_example :
    (a : String) × (("edge" ∷ []) ≡ a ∷ [])
    × ((i : String) → In i reads.inputs → elem a (locations_of state i) ≡ true)
resolve_data_local_example =
    resolve_data_local show (decide data_local none none) reads (operator ("text" ∷ [])) environment
      state (at_agent "edge") refl local

resolve_errors_example : IsBindingError (
    binding_resolution_error infeasible_binding
      (words "explicit target agent is infeasible: " ∷ optional (some "moon") ∷ []))
resolve_errors_example =
    resolve_errors show (decide target_agent (some "moon") none) reads (operator ("text" ∷ []))
      environment state _ infeasible

Distinct-agents : Distinct (agent_ids environment)
unfolding is_unique distinct elem
Distinct-agents = (is_unique-Distinct (agent_ids environment)).0 refl

plain_reader :
    needs_model show (decide auto none none) reads (operator ("text" ∷ [])) environment state
    ≡ false
unfolding elem
plain_reader = refl

resolve_auto_iff_example :
    ((b : ResolvedBinding) × (run (decide auto none none) ("text" ∷ []) ≡ ok b)) ↔ (
      KnowsInputs state reads.inputs
      × ((a : String) × IsFeasible (operator ("text" ∷ [])) environment state a))
resolve_auto_iff_example =
    resolve_auto_iff show (decide auto none none) reads (operator ("text" ∷ [])) environment state
      Distinct-agents plain_reader refl

resolve_auto_least_example :
    (a : String) × (("edge" ∷ []) ≡ a ∷ [])
    × ((y : String)
        → In y
            (feasible show (decide auto none none) reads (operator ("text" ∷ [])) environment state)
        → Cheaper show
            (decide auto none none)
            reads
            (operator ("text" ∷ []))
            environment
            state
            (transfers_needed (map (locations_of state) reads.inputs) a)
            a
            (transfers_needed (map (locations_of state) reads.inputs) y)
            y)
resolve_auto_least_example =
    resolve_auto_least show (decide auto none none) reads (operator ("text" ∷ [])) environment state
      (at_agent "edge") plain_reader refl automatic

model_reader :
    needs_model show
      (decide target_deployment none (some "m"))
      reads
      (operator with_model)
      environment
      state
    ≡ true
unfolding elem
model_reader = refl

one_deployment :
    UniqueDeployments (feasible_agents (operator with_model) environment state) environment state
one_deployment = ((λ m. m), tt)

resolve_model_least_example :
    (d : DeploymentSpec) × (on_model ≡ binding_of d)
    × IsCandidate (feasible_agents (operator with_model) environment state) environment state d
    × (model_request_error show d reads state ≡ ok none)
    × ((y : DeploymentSpec)
        → IsCandidate (feasible_agents (operator with_model) environment state) environment state y
        → Allows target_deployment
            (decide target_deployment none (some "m"))
            (map (locations_of state) reads.inputs)
            y
        → model_request_error show y reads state ≡ ok none
        → Cheaper show
            (decide target_deployment none (some "m"))
            reads
            (operator with_model)
            environment
            state
            (transfers_needed (map (locations_of state) reads.inputs) d.agent_id)
            d.deployment_id
            (transfers_needed (map (locations_of state) reads.inputs) y.agent_id)
            y.deployment_id)
resolve_model_least_example =
    resolve_model_least show (decide target_deployment none (some "m")) reads (operator with_model)
      environment state on_model one_deployment model_reader deployed
