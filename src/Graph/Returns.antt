-- ===== src/Graph/Returns.antt =====
-- What `PlanningGraph.run` returns, raises and logs.
use mathlib.Core.List.{append_assoc}
use mathlib.Core.Path.{subst}
use infra_joint_planner.Prelude.{
  ℕ, ◌+◌, ◌*◌, ◌≤◌, String, ◌≡◌, refl, sym, ◌∙◌, ap, true, List, [], ◌∷◌, ◌++◌, Option, none, some,
  arith, map, length,
}
use infra_joint_planner.Core.Errors.{Exception, Result, ok, err}
use infra_joint_planner.Resolver.Models.Failures.{err-injective}
use infra_joint_planner.Core.Json.{Float}
use infra_joint_planner.Core.Task.{TaskContract}
use infra_joint_planner.Executor.{ArtifactTransferTelemetry}
use infra_joint_planner.Evaluation.{EvaluationResult}
use infra_joint_planner.Effects.{Effect, pure, ◌>>=◌, Platform}
use infra_joint_planner.Graph.Trace.{
  Payload, task_start, materialize_end, run_end, CallTelemetry, TraceEvent, RunResult,
  PlanningState, Traced,
}
use infra_joint_planner.Graph.Nodes.{
  Services, observe_node, Cursor, cursor_of, emit_from_values, emit_all,
}
use infra_joint_planner.Graph.Run.{
  initial_state, run_from, summarize, conclude, resolve_run_id, chosen_id, run,
}
use infra_joint_planner.Graph.Logic.{
  Extends, Chain, done, link, Logs, Logs-pure, Logs-bind, Logs-weaken, Post,
}
use infra_joint_planner.Graph.Emissions.{Logs-emit, Logs-emit_all, Logs-total}
use infra_joint_planner.Graph.Bytes.{
  bytes_logged, bytes_logged-append, bytes_logged-materialized, moved, sum-all_transfers,
}
use infra_joint_planner.Graph.Progress.{Concluded, Finished}
use infra_joint_planner.Graph.Steps.{ServicesRaise}
use infra_joint_planner.Graph.Termination.{run_from-Logs}

-- Where a trace begins.
abbrev pub start : Cursor
start = record { event_index = 0; parent_event_id = none }

-- What the graph returns, given the payloads that it has logged.
pub record IsReported (budget : ℕ) (logged : List Payload) (result : RunResult) : Type 0 where
  pub concluded : Concluded budget result.decisions result.observations
  pub within : length result.decisions ≤ budget
  pub calls : length result.telemetry.planner_calls ≡ length result.decisions
  pub bytes : result.telemetry.total_transfer_bytes ≡ bytes_logged logged

module _ {W : Type 0} (platform : Platform W) (services : Services W) (run_id : String)
    (E : Exception → Type 0) (raises : ServicesRaise E services) (budget : ℕ) where
  summarize-IsReported :
      (latency : Float) (initial : List ArtifactTransferTelemetry) (s : PlanningState)
      (evaluation : EvaluationResult) (answer : String) (telemetry : CallTelemetry)
      (logged : List Payload) (last : Payload)
      → bytes_logged (last ∷ []) ≡ 0
      → Finished run_id budget (moved initial) logged s
      → IsReported budget
          (logged ++ last ∷ [])
          (summarize platform true services latency initial s evaluation answer telemetry)
  unfolding summarize
  summarize-IsReported latency initial s evaluation answer telemetry logged last q f = record {
    concluded = record {
      actions = f.concluded.actions;
      observed = f.concluded.observed;
      last = f.concluded.last;
    };
    within = omega (arith, f.common.steps);
    calls = f.common.calls;
    bytes = omega (
      arith,
      q,
      f.common.bytes,
      sum-all_transfers initial s.observations,
      bytes_logged-append logged (last ∷ []),
    );
  }

  conclude-Logs :
      (started : Float) (initial : List ArtifactTransferTelemetry) (s : PlanningState)
      (logged : List Payload) (answer : String) (evaluation : EvaluationResult)
      (telemetry : CallTelemetry) (a : Option String) (v : Option EvaluationResult)
      (f : Option CallTelemetry)
      → a ≡ some answer
      → v ≡ some evaluation
      → f ≡ some telemetry
      → Finished run_id budget (moved initial) logged s
      → Logs {W = W} run_id E
          (cursor_of s)
          (conclude platform true services started initial s a v f)
          (λ result ps d. IsReported budget (logged ++ ps) result)
  unfolding conclude
  conclude-Logs started initial s logged answer evaluation telemetry a v f ea ev ef h =
      rw (ea, ev, ef)
        (Logs-total platform run_id E (cursor_of s) platform.perf_counter _ λ stopped.
          let result =
            summarize platform true services (platform.elapsed_ms started stopped) initial s
              evaluation answer telemetry in
          Logs-emit platform run_id E s.run_id (cursor_of s) (run_end result.telemetry)
            (λ d. pure result) h.common.run
            (Logs-pure run_id E result (
              summarize-IsReported (platform.elapsed_ms started stopped) initial s evaluation answer
                telemetry logged (run_end result.telemetry) refl h)))

  -- `run`, once its identifier is chosen.
  abbrev traced_run :
      ℕ
      → TaskContract
      → List ArtifactTransferTelemetry
      → Float
      → String
      → Effect (Traced W) RunResult
  traced_run limit task initial started id = do
    first ← emit_from_values platform true id start (task_start task.task_id task.benchmark_id)
    cursor ← emit_all platform true id first (map materialize_end initial)
    state ← run_from platform true services limit observe_node (initial_state id task budget cursor)
    conclude platform true services started initial state state.final_answer state.evaluation
        state.finalizer_telemetry

  abbrev opening : TaskContract → List ArtifactTransferTelemetry → List Payload
  opening task initial = task_start task.task_id task.benchmark_id ∷ map materialize_end initial

  traced_run-Logs :
      (limit : ℕ) (task : TaskContract) (initial : List ArtifactTransferTelemetry) (started : Float)
      → 3 * budget + 3 ≤ limit
      → Logs run_id E start
          (traced_run limit task initial started run_id)
          (λ result ps d. IsReported budget ps result)
  traced_run-Logs limit task initial started l =
      Logs-emit platform run_id E run_id start (task_start task.task_id task.benchmark_id) _ refl (
        Logs-emit_all platform run_id E run_id _ (map materialize_end initial) _ refl (
          Logs-bind run_id E _ _
            (run_from-Logs platform services run_id E raises budget (moved initial) limit
              observe_node (opening task initial) (initial_state run_id task budget _)
              (
                record {
                  run = refl;
                  steps = omega arith;
                  calls = refl;
                  bytes = omega (arith, bytes_logged-materialized initial);
                },
                record { actions = []; decisions = refl; observed = refl },
              )
              l)
            λ s ps d (e, f).
              subst
                (λ c.
                  Logs {W = W} run_id E c
                    (conclude platform true services started initial s s.final_answer s.evaluation
                      s.finalizer_telemetry)
                    (λ result qs d'. IsReported budget (opening task initial ++ (ps ++ qs)) result))
                e
                (Logs-weaken run_id E _
                  (conclude-Logs started initial s (opening task initial ++ ps) f.answered.answer
                    f.result f.answered.telemetry _ _ _ f.answered.final_answer f.evaluation
                    f.answered.finalizer f)
                  λ result qs d' h.
                    subst (λ p. IsReported budget p result)
                      (append_assoc (opening task initial) ps qs) h)))

-- The payloads of the events of a chain are those that it carries.
Chain-payloads :
    {id : String} {c d : Cursor} {ps : List Payload} {events : List TraceEvent}
    → Chain id c ps events d
    → map (λ (e : TraceEvent). e.payload) events ≡ ps
Chain-payloads done = refl
Chain-payloads (link i h) = both i.carries (Chain-payloads h)
  where
    both : {p q : Payload} {ps qs : List Payload} → p ≡ q → ps ≡ qs → p ∷ ps ≡ q ∷ qs
    both e e' = cc

abbrev Anything : Exception → Type 0
Anything e = Unit

any_raise : {W : Type 0} (services : Services W) → ServicesRaise Anything services
any_raise services = record {
  observe = λ w e h. tt;
  decide = λ c w e h. tt;
  execute = λ a i w e h. tt;
  finalize = λ t ds os w e h. tt;
  evaluate = λ t a w e h. tt;
}

module _ {W : Type 0} (platform : Platform W) (services : Services W) (limit budget : ℕ)
    (task : TaskContract) (run_id : Option String) (initial : List ArtifactTransferTelemetry) where
  -- A run with a trace sink.
  abbrev pub traced : Traced W → Result RunResult × Traced W
  traced t = run platform true services limit budget task run_id initial t

  abbrev Reported : RunResult → List Payload → Cursor → Type 0
  Reported result ps d = IsReported budget ps result

  identified :
      (E : Exception → Type 0) (o : Option String) (f : String → Effect (Traced W) RunResult)
      → ((id : String) → Logs id E start (f id) Reported)
      → (t : Traced W)
      → (id : String) × Post id E start t.trace Reported
          ((resolve_run_id platform true services o >>= f) t)
  unfolding resolve_run_id
  identified E none f h t = (_, (h _).at _)
  identified E (some id) f h t = (id, (h id).at t)

  run-Post :
      (E : Exception → Type 0)
      → ServicesRaise E services
      → 3 * budget + 3 ≤ limit
      → (t : Traced W) → (id : String) × Post id E start t.trace Reported (traced t)
  unfolding run
  run-Post E raises l t =
      identified E (chosen_id run_id) _
        (λ id. traced_run-Logs platform services id E raises budget limit task initial _ l) _

  of_error :
      (E : Exception → Type 0) (id : String) (before : List TraceEvent)
      (r : Result RunResult × Traced W) (e : Exception)
      → Post id E start before Reported r
      → r.0 ≡ err e
      → E e
  of_error E id before (ok a, t) e p h = absurd (cc)
  of_error E id before (err x, t) e (ps, c, x', q) h = subst E (err-injective h) q

  of_result :
      (E : Exception → Type 0) (id : String) (before : List TraceEvent)
      (r : Result RunResult × Traced W) (result : RunResult)
      → Post id E start before Reported r
      → r.0 ≡ ok result
      → (ps : List Payload) × (d : Cursor) × Extends id start before r.1.trace ps d
        × IsReported budget ps result
  of_result E id before (ok a, t) result (ps, d, x, q) h =
      (ps, d, x, subst (IsReported budget ps) (let e : a ≡ result = cc in e) q)
  of_result E id before (err x, t) result p h = absurd (cc)

  of_either :
      (E : Exception → Type 0) (id : String) (before : List TraceEvent)
      (r : Result RunResult × Traced W)
      → Post id E start before Reported r
      → (ps : List Payload) × (d : Cursor) × Extends id start before r.1.trace ps d
  of_either E id before (ok a, t) (ps, d, x, q) = (ps, d, x)
  of_either E id before (err e, t) (ps, d, x, q) = (ps, d, x)

  returned :
      (id : String) (before : List TraceEvent) (r : Result RunResult × Traced W)
      → Post id (λ e. ⊥) start before Reported r
      → (result : RunResult) × (r.0 ≡ ok result)
  returned id before (ok a, t) p = (a, refl)
  returned id before (err e, t) (ps, d, x, q) = absurd q

  -- A run whose services never raise returns a result, when langgraph allows it three nodes for each
  -- planning step and three more.
  pub run_returns :
      3 * budget + 3 ≤ limit
      → ServicesRaise (λ e. ⊥) services
      → (t : Traced W) → (result : RunResult) × ((traced t).0 ≡ ok result)
  run_returns l raises t =
      let (id, p) = run-Post (λ e. ⊥) raises l t in returned id t.trace (traced t) p

  -- When langgraph allows three nodes for each planning step and three more, a run raises only what one
  -- of its services raises: never the limit of langgraph, and none of the errors about a missing
  -- decision, snapshot, answer, evaluation or telemetry.
  pub run_errors :
      (E : Exception → Type 0)
      → 3 * budget + 3 ≤ limit
      → ServicesRaise E services
      → (t : Traced W) (e : Exception) → (traced t).0 ≡ err e
      → E e
  run_errors E l raises t e h =
      let (id, p) = run-Post E raises l t in of_error E id t.trace (traced t) e p h

  reported :
      3 * budget + 3 ≤ limit
      → (t : Traced W) (result : RunResult) → (traced t).0 ≡ ok result
      → (id : String) × (ps : List Payload) × (d : Cursor) × Extends id start t.trace
          (traced t).1.trace
          ps
          d
        × IsReported budget ps result
  reported l t result h =
      let (id, p) = run-Post Anything (any_raise services) l t in
      let (ps, d, x, q) = of_result Anything id t.trace (traced t) result p h in (id, ps, d, x, q)

  -- When langgraph allows three nodes for each planning step and three more, the decisions of a run that
  -- returns are as many actions as there are observations, and then a decision to finish, or as many
  -- actions as the planning steps, each again with an observation. The decisions are at most as many
  -- as the planning steps, and as many as the planner calls in the telemetry.
  pub run_budget :
      3 * budget + 3 ≤ limit
      → (t : Traced W) (result : RunResult) → (traced t).0 ≡ ok result
      → Concluded budget result.decisions result.observations
        × (length result.decisions ≤ budget)
        × (length result.telemetry.planner_calls ≡ length result.decisions)
  run_budget l t result h =
      let (id, ps, d, x, q) = reported l t result h in (q.concluded, q.within, q.calls)

  -- When langgraph allows three nodes for each planning step and three more, a run appends one chain of
  -- events to the trace, whether it returns or raises: all have one run identifier, their step ids
  -- count up from 0 and carry the event's type, the first has no parent, and the parent of each other
  -- one is the event before it.
  pub run_trace :
      3 * budget + 3 ≤ limit
      → (t : Traced W)
      → (id : String) × (ps : List Payload) × (d : Cursor) × Extends id start t.trace
          (traced t).1.trace
          ps
          d
  run_trace l t =
      let (id, p) = run-Post Anything (any_raise services) l t in
      let (ps, d, x) = of_either Anything id t.trace (traced t) p in (id, ps, d, x)

  -- When langgraph allows three nodes for each planning step and three more, the bytes that a run which
  -- returns reports as transferred are those of the materialize and transfer events that it has
  -- appended to the trace.
  pub run_bytes :
      3 * budget + 3 ≤ limit
      → (t : Traced W) (result : RunResult) → (traced t).0 ≡ ok result
      → (events : List TraceEvent) × ((traced t).1.trace ≡ t.trace ++ events)
        × (result.telemetry.total_transfer_bytes
            ≡ bytes_logged (map (λ (e : TraceEvent). e.payload) events))
  run_bytes l t result h =
      let (id, ps, d, x, q) = reported l t result h in
      (x.events, x.split, q.bytes ∙ ap bytes_logged (sym (Chain-payloads x.chain)))
