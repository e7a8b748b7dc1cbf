-- ===== src/Core/Tests.antt =====
-- Contracts at which the validators of core/ are run.
use infra_joint_planner.Prelude.{◌≡◌, ◌↔◌, [], ◌∷◌, none, some}
use infra_joint_planner.Core.Errors.{ok}
use infra_joint_planner.Core.Action.{PhysicalDecision, target_agent, check_physical_decision}
use infra_joint_planner.Core.Action.Targets.{TargetsFit, check_physical_decision_iff}
use infra_joint_planner.Core.State.{EnvironmentSpec, references_exist}
use infra_joint_planner.Core.State.References.{IsWellFormed, references_exist_iff}

abbrev on_edge : PhysicalDecision
on_edge = record {
  policy = target_agent;
  target_agent_id = some "edge";
  target_deployment_id = none;
}

check_physical_decision_iff_example :
    (check_physical_decision on_edge ≡ ok on_edge) ↔ TargetsFit target_agent (some "edge") none
check_physical_decision_iff_example = check_physical_decision_iff on_edge

abbrev linked : EnvironmentSpec
linked = record {
  agents =
      record { agent_id = "cloud"; device = "gpu"; capabilities = [] }
      ∷ record { agent_id = "edge"; device = "phone"; capabilities = [] }
      ∷ [];
  deployments = [];
  initial_placements = record { artifact_id = "doc"; agent_id = "edge" } ∷ [];
  links =
      record {
        source_agent_id = "edge";
        target_agent_id = "cloud";
        bandwidth_mbps = none;
        rtt_ms = none;
      }
      ∷ [];
}

references_exist_iff_example : (references_exist linked ≡ ok linked) ↔ IsWellFormed linked
references_exist_iff_example = references_exist_iff linked
