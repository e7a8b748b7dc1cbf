-- ===== src/Graph/Trace.antt =====
-- The records that the graph keeps: telemetry, trace events with their payloads, and its state.
use infra_joint_planner.Prelude.{ℕ, String, List, Option}
use infra_joint_planner.Core.Json.{Float}
use infra_joint_planner.Core.Action.{JointDecision}
use infra_joint_planner.Core.State.{Datetime, InfrastructureState}
use infra_joint_planner.Core.Task.{TaskContract}
use infra_joint_planner.Model.{ModelCallTelemetry}
use infra_joint_planner.Executor.{ArtifactTransferTelemetry, ExecutionResult}
use infra_joint_planner.Evaluation.{EvaluationResult}

-- Planner and finalizer calls have telemetry of one shape.
pub record CallTelemetry : Type 0 where
  pub latency_ms : Float
  pub model : Option ModelCallTelemetry

pub record RunTelemetry : Type 0 where
  pub e2e_latency_ms : Float
  pub planner_calls : List CallTelemetry
  pub finalizer : CallTelemetry
  pub total_operator_latency_ms : Float
  pub total_transfer_bytes : ℕ
  pub total_transfer_duration_ms : Float

-- What an event's payload is dumped from. The type of the event is determined by it.
pub data Payload : Type 0 where
  task_start : String → String → Payload
  materialize_end : ArtifactTransferTelemetry → Payload
  infra_snapshot : InfrastructureState → Payload
  planner_start : ℕ → Payload
  planner_end : JointDecision → CallTelemetry → Payload
  action_proposed finish_proposed : JointDecision → Payload
  operator_start : String → Payload
  transfer_end : ArtifactTransferTelemetry → Payload
  operator_end : ExecutionResult → Payload
  finalize_start : Payload
  finalize_end : String → CallTelemetry → Payload
  evaluation_result : EvaluationResult → Payload
  run_end : RunTelemetry → Payload

abbrev pub event_type_of : Payload → String
event_type_of (task_start _ _) = "task.start"
event_type_of (materialize_end _) = "artifact.materialize.end"
event_type_of (infra_snapshot _) = "infra.snapshot"
event_type_of (planner_start _) = "planner.start"
event_type_of (planner_end _ _) = "planner.end"
event_type_of (action_proposed _) = "joint_action.proposed"
event_type_of (finish_proposed _) = "finish.proposed"
event_type_of (operator_start _) = "operator.start"
event_type_of (transfer_end _) = "artifact.transfer.end"
event_type_of (operator_end _) = "operator.end"
event_type_of finalize_start = "finalize.start"
event_type_of (finalize_end _ _) = "finalize.end"
event_type_of (evaluation_result _) = "evaluation.result"
event_type_of (run_end _) = "run.end"

pub record TraceEvent : Type 0 where
  pub run_id : String
  pub step_id : String
  pub parent_id : Option String
  pub event_type : String
  pub timestamp : Datetime
  pub payload : Payload

pub record PlanningState : Type 0 where
  pub run_id : String
  pub event_index : ℕ
  pub parent_event_id : Option String
  pub task : TaskContract
  pub remaining_steps : ℕ
  pub decisions : List JointDecision
  pub observations : List ExecutionResult
  pub infrastructure : Option InfrastructureState
  pub pending_decision : Option JointDecision
  pub final_answer : Option String
  pub evaluation : Option EvaluationResult
  pub planner_telemetry : List CallTelemetry
  pub finalizer_telemetry : Option CallTelemetry

pub record RunResult : Type 0 where
  pub final_answer : String
  pub evaluation : EvaluationResult
  pub decisions : List JointDecision
  pub observations : List ExecutionResult
  pub initial_transfers : List ArtifactTransferTelemetry
  pub telemetry : RunTelemetry

-- The outside world, and the events that the trace sink has been given, in order.
pub record Traced (W : Type 0) : Type 0 where
  pub world : W
  pub trace : List TraceEvent
