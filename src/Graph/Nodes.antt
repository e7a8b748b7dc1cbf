-- ===== src/Graph/Nodes.antt =====
-- The nodes and the routing of the graph. A node returns the state with the keys that it updates.
use infra_joint_planner.Prelude.{
  ℕ, ◌+◌, ◌-◌, String, Bool, List, [], ◌∷◌, ◌++◌, Option, none, some, map, ltb, if◌then◌else◌,
}
use infra_joint_planner.Core.Errors.{words, Result, ok, err, runtime_error, type_error}
use infra_joint_planner.Core.Action.{JointAction, JointDecision, action, finish}
use infra_joint_planner.Core.State.{InfrastructureState}
use infra_joint_planner.Core.Task.{TaskContract}
use infra_joint_planner.Executor.{ExecutionResult}
use infra_joint_planner.Evaluation.{EvaluationResult}
use infra_joint_planner.Planner.{
  FinalizationOutcome, PlannerOutcome, BlindPlannerContext, from_execution,
}
use infra_joint_planner.Effects.{Effect, pure, raise, ◌>>=◌, ◌>>◌, Platform, total}
use infra_joint_planner.Graph.Text.{step_id_of}
use infra_joint_planner.Graph.Trace.{
  CallTelemetry, Payload, infra_snapshot, planner_start, planner_end, action_proposed,
  finish_proposed, operator_start, transfer_end, operator_end, finalize_start, finalize_end,
  evaluation_result, event_type_of, TraceEvent, PlanningState, Traced,
}

-- The components that the graph calls, as protocols.
pub record Services (W : Type 0) : Type 0 where
  pub observe : Effect W InfrastructureState
  pub decide : BlindPlannerContext → Effect W PlannerOutcome
  pub execute : JointAction → InfrastructureState → Effect W ExecutionResult
  pub finalize :
      TaskContract → List JointDecision → List ExecutionResult → Effect W FinalizationOutcome
  pub evaluate : TaskContract → String → Effect W EvaluationResult

pub data Node : Type 0 where
  observe_node plan_node execute_node finalize_node evaluate_node : Node

-- The index of the next event, and the event before it.
pub record Cursor : Type 0 where
  pub event_index : ℕ
  pub parent_event_id : Option String

abbrev pub cursor_of : PlanningState → Cursor
cursor_of s = record { event_index = s.event_index; parent_event_id = s.parent_event_id }

-- `**trace_state`
abbrev pub with_cursor : Cursor → PlanningState → PlanningState
with_cursor c s = record s { event_index = c.event_index; parent_event_id = c.parent_event_id }

module _ {W : Type 0} (platform : Platform W) (has_sink : Bool) where
  open platform use {perf_counter, now, elapsed_ms}

  abbrev pub in_world : {A : Type 0} → Effect W A → Effect (Traced W) A
  in_world m t = let (r, w) = m t.world in (r, record t { world = w })

  unfoldable pub append_trace : TraceEvent → Effect (Traced W) (Unit {0})
  append_trace event t = (ok tt, if has_sink then record t { trace = t.trace ++ event ∷ [] } else t)

  unfoldable pub emit_from_values : String → Cursor → Payload → Effect (Traced W) Cursor
  unfolding append_trace
  emit_from_values run_id cursor payload = do
    timestamp ← in_world (total now)
    let step_id = step_id_of cursor.event_index (event_type_of payload)
    append_trace (record {
      run_id = run_id;
      step_id = step_id;
      parent_id = cursor.parent_event_id;
      event_type = event_type_of payload;
      timestamp = timestamp;
      payload = payload;
    })
    pure (record { event_index = cursor.event_index + 1; parent_event_id = some step_id })

  -- One event after the other.
  unfoldable pub emit_all : String → Cursor → List Payload → Effect (Traced W) Cursor
  emit_all run_id cursor [] = pure cursor
  emit_all run_id cursor (payload ∷ payloads) = do
    next ← emit_from_values run_id cursor payload
    emit_all run_id next payloads

  module _ (services : Services W) where
    unfoldable pub observe : PlanningState → Effect (Traced W) PlanningState
    observe state = do
      infrastructure ← in_world services.observe
      cursor ← emit_from_values state.run_id (cursor_of state) (infra_snapshot infrastructure)
      pure (with_cursor cursor (record state { infrastructure = some infrastructure }))

    abbrev pub proposed : JointDecision → Payload
    proposed (action a) = action_proposed (action a)
    proposed (finish f) = finish_proposed (finish f)

    abbrev pub context_of : PlanningState → BlindPlannerContext
    context_of state = record {
      task = state.task;
      decisions = state.decisions;
      observations = map from_execution state.observations;
      remaining_steps = state.remaining_steps;
    }

    unfoldable pub plan : PlanningState → Effect (Traced W) PlanningState
    plan state = do
      first ← emit_from_values state.run_id (cursor_of state) (planner_start state.remaining_steps)
      started ← in_world (total perf_counter)
      outcome ← in_world (services.decide (context_of state))
      stopped ← in_world (total perf_counter)
      let telemetry : CallTelemetry = record {
        latency_ms = elapsed_ms started stopped;
        model = outcome.model_telemetry;
      }
      second ← emit_from_values state.run_id first (planner_end outcome.decision telemetry)
      third ← emit_from_values state.run_id second (proposed outcome.decision)
      pure (
          with_cursor third (record state {
            pending_decision = some outcome.decision;
            decisions = state.decisions ++ outcome.decision ∷ [];
            remaining_steps = state.remaining_steps - 1;
            planner_telemetry = state.planner_telemetry ++ telemetry ∷ [];
          }))

    -- `_execute`, at the pending decision and the snapshot that the state holds.
    unfoldable pub execute_pending :
        Option JointDecision
        → Option InfrastructureState
        → PlanningState
        → Effect (Traced W) PlanningState
    execute_pending (some (action decision)) (some infrastructure) state = do
      first ←
          emit_from_values state.run_id (cursor_of state)
            (operator_start decision.semantic.operator)
      observation ← in_world (services.execute decision infrastructure)
      second ← emit_all state.run_id first (map transfer_end observation.transfers)
      third ← emit_from_values state.run_id second (operator_end observation)
      pure (
          with_cursor third
            (record state { observations = state.observations ++ observation ∷ [] }))
    execute_pending (some (action decision)) none state =
        raise (runtime_error (words "execute node requires an infrastructure snapshot" ∷ []))
    execute_pending _ infrastructure state =
        raise (type_error (words "execute node requires a JointAction" ∷ []))

    unfoldable pub finalize : PlanningState → Effect (Traced W) PlanningState
    finalize state = do
      first ← emit_from_values state.run_id (cursor_of state) finalize_start
      started ← in_world (total perf_counter)
      outcome ← in_world (services.finalize state.task state.decisions state.observations)
      stopped ← in_world (total perf_counter)
      let telemetry : CallTelemetry = record {
        latency_ms = elapsed_ms started stopped;
        model = outcome.model_telemetry;
      }
      second ← emit_from_values state.run_id first (finalize_end outcome.answer telemetry)
      pure (
          with_cursor second (record state {
            final_answer = some outcome.answer;
            finalizer_telemetry = some telemetry;
          }))

    unfoldable pub evaluate_answer : Option String → PlanningState → Effect (Traced W) PlanningState
    evaluate_answer none state =
        raise (runtime_error (words "evaluate node requires a final answer" ∷ []))
    evaluate_answer (some answer) state = do
      result ← in_world (services.evaluate state.task answer)
      cursor ← emit_from_values state.run_id (cursor_of state) (evaluation_result result)
      pure (with_cursor cursor (record state { evaluation = some result }))

    unfoldable pub visit : Node → PlanningState → Effect (Traced W) PlanningState
    visit observe_node state = observe state
    visit plan_node state = plan state
    visit execute_node state = execute_pending state.pending_decision state.infrastructure state
    visit finalize_node state = finalize state
    visit evaluate_node state = evaluate_answer state.final_answer state

unfoldable pub route_after_observe : ℕ → Node
route_after_observe remaining_steps = if ltb 0 remaining_steps then plan_node else finalize_node

unfoldable pub route_after_plan : Option JointDecision → Result Node
route_after_plan none = err (runtime_error (words "plan node did not produce a decision" ∷ []))
route_after_plan (some (finish f)) = ok finalize_node
route_after_plan (some (action a)) = ok execute_node

abbrev pub to_node : Result Node → Result (Option Node)
to_node (ok n) = ok (some n)
to_node (err e) = err e

-- The edges; none is END.
unfoldable pub route : Node → PlanningState → Result (Option Node)
unfolding route_after_observe route_after_plan
route observe_node state = ok (some (route_after_observe state.remaining_steps))
route plan_node state = to_node (route_after_plan state.pending_decision)
route execute_node state = ok (some observe_node)
route finalize_node state = ok (some evaluate_node)
route evaluate_node state = ok none
