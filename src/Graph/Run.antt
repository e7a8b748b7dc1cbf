-- ===== src/Graph/Run.antt =====
-- Following the edges, and `PlanningGraph.run`.
use infra_joint_planner.Prelude.{
  ℕ, zero, suc, String, Bool, List, [], ◌∷◌, ◌++◌, Option, none, some, map, ltb, ◌==◌,
  if◌then◌else◌,
}
use infra_joint_planner.Core.Errors.{
  words, Result, ok, err, runtime_error, value_error, graph_recursion_error,
}
use infra_joint_planner.Core.Json.{Float}
use infra_joint_planner.Core.Task.{TaskContract}
use infra_joint_planner.Executor.{ArtifactTransferTelemetry, ExecutionResult}
use infra_joint_planner.Evaluation.{EvaluationResult}
use infra_joint_planner.Model.{sum}
use infra_joint_planner.Effects.{Effect, pure, raise, lift, ◌>>=◌, ◌>>◌, Platform, total}
use infra_joint_planner.Graph.Trace.{
  CallTelemetry, task_start, materialize_end, run_end, PlanningState, RunResult, Traced,
}
use infra_joint_planner.Graph.Nodes.{
  Services, Node, observe_node, Cursor, cursor_of, in_world, emit_from_values, emit_all, visit,
  route,
}

-- `run_id or str(uuid4())`: the empty text counts as none.
abbrev pub chosen_id : Option String → Option String
chosen_id none = none
chosen_id (some s) = if s == "" then none else some s

abbrev pub all_transfers :
    List ArtifactTransferTelemetry → List ExecutionResult → List ArtifactTransferTelemetry
all_transfers initial [] = initial
all_transfers initial (o ∷ os) = all_transfers (initial ++ o.transfers) os

-- The state in which the graph starts.
abbrev pub initial_state : String → TaskContract → ℕ → Cursor → PlanningState
initial_state run_id task max_planning_steps cursor = record {
  run_id = run_id;
  event_index = cursor.event_index;
  parent_event_id = cursor.parent_event_id;
  task = task;
  remaining_steps = max_planning_steps;
  decisions = [];
  observations = [];
  infrastructure = none;
  pending_decision = none;
  final_answer = none;
  evaluation = none;
  planner_telemetry = [];
  finalizer_telemetry = none;
}

module _ {W : Type 0} (platform : Platform W) (has_sink : Bool) (services : Services W) where
  open platform use {perf_counter, uuid4, elapsed_ms, float_sum}

  -- At END the state is the result.
  abbrev pub then_visit :
      PlanningState
      → (Node → Effect (Traced W) PlanningState)
      → Option Node
      → Effect (Traced W) PlanningState
  then_visit after go none = pure after
  then_visit after go (some following) = go following

  -- langgraph runs a node and takes the edge to the next, `limit` nodes at most.
  unfoldable pub run_from : ℕ → Node → PlanningState → Effect (Traced W) PlanningState
  run_from zero node state = raise graph_recursion_error
  run_from (suc limit) node state = do
    after ← visit platform has_sink services node state
    next ← lift (route node after)
    then_visit after (λ following. run_from limit following after) next

  unfoldable pub resolve_run_id : Option String → Effect (Traced W) String
  resolve_run_id none = in_world platform has_sink (total uuid4)
  resolve_run_id (some run_id) = pure run_id

  -- What a finished run returns, from the answer, the evaluation and the finalizer's telemetry.
  unfoldable pub summarize :
      Float
      → List ArtifactTransferTelemetry
      → PlanningState
      → EvaluationResult
      → String
      → CallTelemetry
      → RunResult
  summarize latency initial_transfers state evaluation final_answer finalizer_telemetry =
      let transfers = all_transfers initial_transfers state.observations in
      record {
        final_answer = final_answer;
        evaluation = evaluation;
        decisions = state.decisions;
        observations = state.observations;
        initial_transfers = initial_transfers;
        telemetry = record {
          e2e_latency_ms = latency;
          planner_calls = state.planner_telemetry;
          finalizer = finalizer_telemetry;
          total_operator_latency_ms =
              float_sum (map (λ (o : ExecutionResult). o.operator_latency_ms) state.observations);
          total_transfer_bytes =
              sum (map (λ (t : ArtifactTransferTelemetry). t.bytes_transferred) transfers);
          total_transfer_duration_ms =
              float_sum (map (λ (t : ArtifactTransferTelemetry). t.duration_ms) transfers);
        };
      }

  -- The part of `run` behind the graph.
  unfoldable pub conclude :
      Float
      → List ArtifactTransferTelemetry
      → PlanningState
      → Option String
      → Option EvaluationResult
      → Option CallTelemetry
      → Effect (Traced W) RunResult
  conclude started initial_transfers state (some final_answer) (some evaluation) (some finalizer) =
      do
        stopped ← in_world platform has_sink (total perf_counter)
        let result =
            summarize (elapsed_ms started stopped) initial_transfers state evaluation final_answer
              finalizer
        emit_from_values platform has_sink state.run_id (cursor_of state) (run_end result.telemetry)
        pure result
  conclude started initial_transfers state (some final_answer) (some evaluation) none =
      raise (runtime_error (words "planning graph ended without finalizer telemetry" ∷ []))
  conclude started initial_transfers state _ _ finalizer =
      raise (runtime_error (words "planning graph ended without finalization and evaluation" ∷ []))

  -- `PlanningGraph.run`, with the number of nodes that langgraph allows.
  unfoldable pub run :
      (limit max_planning_steps : ℕ)
      → TaskContract
      → Option String
      → List ArtifactTransferTelemetry
      → Effect (Traced W) RunResult
  run limit max_planning_steps task run_id initial_transfers = do
    run_started ← in_world platform has_sink (total perf_counter)
    resolved_run_id ← resolve_run_id (chosen_id run_id)
    first ←
        emit_from_values platform has_sink resolved_run_id
          (record { event_index = 0; parent_event_id = none })
          (task_start task.task_id task.benchmark_id)
    cursor ←
        emit_all platform has_sink resolved_run_id first (map materialize_end initial_transfers)
    state ←
        run_from limit observe_node (initial_state resolved_run_id task max_planning_steps cursor)
    conclude run_started initial_transfers state state.final_answer state.evaluation
        state.finalizer_telemetry

-- `PlanningGraph.__init__`
unfoldable pub check_max_planning_steps : ℕ → Result ℕ
check_max_planning_steps n =
    if ltb n 1 then err (value_error (words "max_planning_steps must be positive" ∷ [])) else ok n
