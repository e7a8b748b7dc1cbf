-- ===== src/Planner.antt =====
-- planning/planner.py: what a blind planner sees, and the planners (in the modules below).
pub mod Prompts
pub mod Decide
pub mod Blindness
pub mod Placement
mod Tests
use infra_joint_planner.Prelude.{ℕ, String, List, Option}
use infra_joint_planner.Core.Json.{Fields}
use infra_joint_planner.Core.Action.{JointDecision}
use infra_joint_planner.Core.Task.{TaskContract}
use infra_joint_planner.Model.{ModelCallTelemetry}
use infra_joint_planner.Executor.{ExecutionResult}

pub record PlannerOutcome : Type 0 where
  pub decision : JointDecision
  pub model_telemetry : Option ModelCallTelemetry

-- An execution result without its physical fields.
pub record PlannerObservation : Type 0 where
  pub operator : String
  pub output : Fields

unfoldable pub from_execution : ExecutionResult → PlannerObservation
from_execution result = record { operator = result.operator; output = result.output }

pub record BlindPlannerContext : Type 0 where
  pub task : TaskContract
  pub decisions : List JointDecision
  pub observations : List PlannerObservation
  pub remaining_steps : ℕ

-- planning/finalize.py
pub record FinalizationOutcome : Type 0 where
  pub answer : String
  pub model_telemetry : Option ModelCallTelemetry
