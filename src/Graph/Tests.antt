-- ===== src/Graph/Tests.antt =====
-- A run with one action, and a run in which that action fails.
use infra_joint_planner.Prelude.{
  ℕ, zero, suc, ◌+◌, ◌≤◌, String, ◌≡◌, refl, sym, List, [], ◌∷◌, ◌++◌, none, some, map, length,
  arith, true,
}
use infra_joint_planner.Core.Errors.{words, Exception, Result, ok, err, runtime_error}
use infra_joint_planner.Core.Json.{Float, end}
use infra_joint_planner.Core.Action.{JointAction, JointDecision, action, finish, auto}
use infra_joint_planner.Core.State.{InfrastructureState, Datetime}
use infra_joint_planner.Core.Task.{TaskContract, short_text}
use infra_joint_planner.Executor.{ArtifactTransferTelemetry, ExecutionResult}
use infra_joint_planner.Evaluation.{EvaluationResult}
use infra_joint_planner.Resolver.Models.Failures.{err-injective}
use infra_joint_planner.Effects.{Platform}
use infra_joint_planner.Graph.Trace.{Payload, CallTelemetry, TraceEvent, RunResult, Traced}
use infra_joint_planner.Graph.Nodes.{
  Services, Cursor, observe, plan, execute_pending, finalize, evaluate_answer, visit, route,
  route_after_observe, route_after_plan, emit_from_values, emit_all, append_trace,
}
use infra_joint_planner.Graph.Run.{run, run_from, resolve_run_id, conclude, summarize}
use infra_joint_planner.Graph.Logic.{Extends}
use infra_joint_planner.Graph.Bytes.{bytes_logged}
use infra_joint_planner.Graph.Progress.{Concluded}
use infra_joint_planner.Graph.Steps.{ServicesRaise}
use infra_joint_planner.Graph.Returns.{
  start, traced, run_returns, run_errors, run_budget, run_trace, run_bytes,
}

abbrev zero_ms : Float
zero_ms = record { bits = 0 }

abbrev noon : Datetime
noon = record { instant = 12; utc_offset = some (true, 0) }

abbrev platform : Platform ℕ
platform = record {
  perf_counter = λ w. (zero_ms, w);
  now = λ w. (noon, w);
  uuid4 = λ w. ("id", w);
  elapsed_ms = λ a b. zero_ms;
  float_sum = λ xs. zero_ms;
}

abbrev snapshot : InfrastructureState
snapshot = record { agents = []; deployments = []; artifacts = []; links = []; observed_at = noon }

abbrev reads : JointAction
reads = record {
  semantic = record { operator = "read"; inputs = []; arguments = end };
  physical = record { policy = auto; target_agent_id = none; target_deployment_id = none };
}

abbrev transfer : ℕ → ArtifactTransferTelemetry
transfer n = record {
  artifact_id = "doc";
  source_agent_id = "edge";
  target_agent_id = "cloud";
  bytes_transferred = n;
  duration_ms = zero_ms;
}

abbrev observation : ExecutionResult
observation = record {
  operator = "read";
  agent_ids = "cloud" ∷ [];
  deployment_id = none;
  output = end;
  operator_latency_ms = zero_ms;
  model_telemetry = none;
  transfers = transfer 7 ∷ [];
}

abbrev verdict : EvaluationResult
verdict = record { format_valid = true; benchmark_score = true; details = "" }

-- The world counts the planner's calls: first an action, then the end.
abbrev proposal : ℕ → JointDecision
proposal zero = action reads
proposal (suc n) = finish (record { reason = "done" })

abbrev services : Services ℕ
services = record {
  observe = λ w. (ok snapshot, w);
  decide = λ c w. (ok (record { decision = proposal w; model_telemetry = none }), w + 1);
  execute = λ a i w. (ok observation, w);
  finalize = λ t ds os w. (ok (record { answer = "A"; model_telemetry = none }), w);
  evaluate = λ t answer w. (ok verdict, w);
}

abbrev task : TaskContract
task = record {
  task_id = "t";
  benchmark_id = "b";
  objective = "read";
  artifacts = [];
  output_contract = record { format = short_text; schema_definition = none; choices = none };
  evaluator_id = "e";
}

abbrev world : Traced ℕ
world = record { world = 0; trace = [] }

abbrev call : CallTelemetry
call = record { latency_ms = zero_ms; model = none }

abbrev result : RunResult
result = record {
  final_answer = "A";
  evaluation = verdict;
  decisions = action reads ∷ finish (record { reason = "done" }) ∷ [];
  observations = observation ∷ [];
  initial_transfers = transfer 5 ∷ [];
  telemetry = record {
    e2e_latency_ms = zero_ms;
    planner_calls = call ∷ call ∷ [];
    finalizer = call;
    total_operator_latency_ms = zero_ms;
    total_transfer_bytes = 12;
    total_transfer_duration_ms = zero_ms;
  };
}

abbrev ran : Result RunResult × Traced ℕ
ran = traced platform services 9 2 task (some "r") (transfer 5 ∷ []) world

ran-result : ran.0 ≡ ok result
unfolding run run_from resolve_run_id visit observe plan execute_pending finalize evaluate_answer
    route route_after_observe route_after_plan emit_from_values emit_all append_trace conclude
    summarize
ran-result = refl

never : ServicesRaise (λ e. ⊥) services
never = record {
  observe = λ w e h. cc;
  decide = λ c w e h. cc;
  execute = λ a i w e h. cc;
  finalize = λ t ds os w e h. cc;
  evaluate = λ t a w e h. cc;
}

run_returns_example : (r : RunResult) × (ran.0 ≡ ok r)
run_returns_example =
    run_returns platform services 9 2 task (some "r") (transfer 5 ∷ []) (omega arith) never world

run_budget_example :
    Concluded 2 result.decisions result.observations
    × (length result.decisions ≤ 2)
    × (length result.telemetry.planner_calls ≡ length result.decisions)
run_budget_example =
    run_budget platform services 9 2 task (some "r") (transfer 5 ∷ []) (omega arith) world result
      ran-result

run_trace_example :
    (id : String) × (ps : List Payload) × (d : Cursor) × Extends id start [] ran.1.trace ps d
run_trace_example =
    run_trace platform services 9 2 task (some "r") (transfer 5 ∷ []) (omega arith) world

run_bytes_example :
    (events : List TraceEvent) × (ran.1.trace ≡ [] ++ events)
    × (12 ≡ bytes_logged (map (λ (e : TraceEvent). e.payload) events))
run_bytes_example =
    run_bytes platform services 9 2 task (some "r") (transfer 5 ∷ []) (omega arith) world result
      ran-result

abbrev broken : Exception
broken = runtime_error (words "no worker" ∷ [])

abbrev failing : Services ℕ
failing = record services { execute = λ a i w. (err broken, w) }

failing-result : (traced platform failing 9 2 task none [] world).0 ≡ err broken
unfolding run run_from resolve_run_id visit observe plan execute_pending route route_after_observe
    route_after_plan emit_from_values emit_all append_trace
failing-result = refl

raises_broken : ServicesRaise (λ e. e ≡ broken) failing
raises_broken = record {
  observe = λ w e h. cc;
  decide = λ c w e h. cc;
  execute = λ a i w e h. sym (err-injective h);
  finalize = λ t ds os w e h. cc;
  evaluate = λ t a w e h. cc;
}

run_errors_example : broken ≡ broken
run_errors_example =
    run_errors platform failing 9 2 task none [] (λ e. e ≡ broken) (omega arith) raises_broken world
      broken failing-result
