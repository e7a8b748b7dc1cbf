-- ===== src/Graph/Steps.antt =====
-- What one node does: the events that it logs, the node that follows, and what holds there.
use infra_joint_planner.Prelude.{
  ℕ, ◌+◌, ◌*◌, ◌-◌, ◌<◌, String, ◌≡◌, refl, sym, ◌∙◌, ap, ◌⊎◌, inl, inr, true, false, List, [], ◌∷◌,
  ◌++◌, Option, none, some, map, length, length-append, arith, ltb, Bool-cases,
}
use infra_joint_planner.Core.Errors.{Exception, ok}
use infra_joint_planner.Core.Action.{JointAction, JointDecision, action, finish}
use infra_joint_planner.Core.State.{InfrastructureState}
use infra_joint_planner.Core.Task.{TaskContract}
use infra_joint_planner.Executor.{ExecutionResult}
use infra_joint_planner.Evaluation.{EvaluationResult}
use infra_joint_planner.Planner.{BlindPlannerContext}
use infra_joint_planner.Effects.{Effect, pure, ◌>>=◌, Platform, Raises}
use infra_joint_planner.Graph.Trace.{
  Payload, infra_snapshot, planner_start, planner_end, operator_start, transfer_end, operator_end,
  finalize_start, finalize_end, CallTelemetry, PlanningState, Traced,
}
use infra_joint_planner.Graph.Nodes.{
  Services, Node, observe_node, plan_node, execute_node, finalize_node, evaluate_node, Cursor,
  emit_from_values, cursor_of, with_cursor, proposed, context_of, observe, plan, execute_pending,
  finalize, evaluate_answer, visit, route, route_after_observe, route_after_plan,
}
use infra_joint_planner.Graph.Logic.{next_cursor, Logs, Logs-pure}
use infra_joint_planner.Graph.Emissions.{Logs-emit, Logs-world, Logs-total, Logs-emit_all}
use infra_joint_planner.Graph.Bytes.{
  bytes_logged, bytes_logged-append, bytes_logged-transfers, observed-append,
}
use infra_joint_planner.Graph.Progress.{
  decided-append, length-decided, Common, Settled, Before, Finished, nodes_needed,
}

-- Each service raises nothing but exceptions of `E`.
pub record ServicesRaise {W : Type 0} (E : Exception → Type 0) (services : Services W)
    : Type 0 where
  pub observe : Raises E services.observe
  pub decide : (c : BlindPlannerContext) → Raises E (services.decide c)
  pub execute : (a : JointAction) (i : InfrastructureState) → Raises E (services.execute a i)
  pub finalize :
      (t : TaskContract) (ds : List JointDecision) (os : List ExecutionResult)
      → Raises E (services.finalize t ds os)
  pub evaluate : (t : TaskContract) (answer : String) → Raises E (services.evaluate t answer)

module _ {W : Type 0} (platform : Platform W) (services : Services W) (run_id : String)
    (E : Exception → Type 0) (raises : ServicesRaise E services) (budget initial_bytes : ℕ) where
  -- The node that follows, with what holds when it begins, or the end.
  abbrev pub Goes : List Payload → ℕ → Option Node → PlanningState → Type 0
  Goes logged n none s = Finished run_id budget initial_bytes logged s
  Goes logged n (some node) s =
      Before run_id budget initial_bytes logged node s × (nodes_needed node s.remaining_steps < n)

  abbrev pub Step :
      List Payload → Node → PlanningState → PlanningState → List Payload → Cursor → Type 0
  Step logged node s s' ps d =
      (cursor_of s' ≡ d)
      × ((next : Option Node) × (route node s' ≡ ok next)
          × Goes (logged ++ ps) (nodes_needed node s.remaining_steps) next s')

  abbrev pub Visits : List Payload → Node → PlanningState → Type 0
  Visits logged node s =
      Logs run_id E (cursor_of s) (visit platform true services node s) (Step logged node s)

  -- Events that move nothing leave the count of bytes.
  quiet :
      (logged ps : List Payload) (n : ℕ)
      → bytes_logged ps ≡ 0
      → bytes_logged logged ≡ n
      → bytes_logged (logged ++ ps) ≡ n
  quiet logged ps n h k = omega (arith, bytes_logged-append logged ps)

  abbrev observed_state : InfrastructureState → PlanningState → PlanningState
  observed_state i s =
      with_cursor (next_cursor (cursor_of s) (infra_snapshot i))
        (record s { infrastructure = some i })

  observe-Step :
      (logged : List Payload) (s : PlanningState) (i : InfrastructureState)
      → Before run_id budget initial_bytes logged observe_node s
      → Step logged observe_node s
          (observed_state i s)
          (infra_snapshot i ∷ [])
          (next_cursor (cursor_of s) (infra_snapshot i))
  unfolding route route_after_observe
  observe-Step logged s i (c, r) = (refl, branch (Bool-cases (ltb 0 s.remaining_steps)))
    where
      common :
          Common run_id budget initial_bytes (logged ++ infra_snapshot i ∷ []) (observed_state i s)
      common = record {
        run = c.run;
        steps = c.steps;
        calls = c.calls;
        bytes = quiet logged (infra_snapshot i ∷ []) _ refl c.bytes;
      }

      settled : Settled run_id budget initial_bytes (observed_state i s)
      settled = record { actions = r.actions; decisions = r.decisions; observed = r.observed }

      branch :
          (ltb 0 s.remaining_steps ≡ true) ⊎ (ltb 0 s.remaining_steps ≡ false)
          → (next : Option Node) × (route observe_node (observed_state i s) ≡ ok next)
            × Goes
                (logged ++ infra_snapshot i ∷ [])
                (3 * s.remaining_steps + 3)
                next
                (observed_state i s)
      branch (inl h) =
          (some plan_node, rw h refl, ((common, (settled, ground arith, (i, refl))), omega arith))
      branch (inr h) = (
        some finalize_node,
        rw h refl,
        (
          (
            common,
            record {
              actions = r.actions;
              observed = r.observed;
              last = inr (
                r.decisions,
                ground (
                  arith,
                  c.steps,
                  length-decided r.actions,
                  ap (λ (ds : List JointDecision). length ds) r.decisions,
                ),
              );
            },
          ),
          omega arith,
        ),
      )

  observe-Visits :
      (logged : List Payload) (s : PlanningState)
      → Before run_id budget initial_bytes logged observe_node s
      → Visits logged observe_node s
  unfolding visit observe
  observe-Visits logged s b =
      Logs-world platform run_id E (cursor_of s) services.observe _ raises.observe λ i.
        Logs-emit platform run_id E s.run_id (cursor_of s) (infra_snapshot i) _ b.0.run
          (Logs-pure run_id E _ (observe-Step logged s i b))

  abbrev planned_state : JointDecision → CallTelemetry → Cursor → PlanningState → PlanningState
  planned_state decision telemetry d s = with_cursor d (record s {
    pending_decision = some decision;
    decisions = s.decisions ++ decision ∷ [];
    remaining_steps = s.remaining_steps - 1;
    planner_telemetry = s.planner_telemetry ++ telemetry ∷ [];
  })

  plan-Step :
      (logged : List Payload) (s : PlanningState) (decision : JointDecision)
      (telemetry : CallTelemetry) (d : Cursor) (ps : List Payload)
      → bytes_logged ps ≡ 0
      → Before run_id budget initial_bytes logged plan_node s
      → Step logged plan_node s (planned_state decision telemetry d s) ps d
  unfolding route route_after_plan
  plan-Step logged s decision telemetry d ps q (c, (r, left, (i, e))) = (refl, branch decision)
    where
      common :
          (x : JointDecision)
          → Common run_id budget initial_bytes (logged ++ ps) (planned_state x telemetry d s)
      common x = record {
        run = c.run;
        steps = omega (arith, c.steps, length-append s.decisions (x ∷ []));
        calls = omega (
          arith,
          c.calls,
          length-append s.decisions (x ∷ []),
          length-append s.planner_telemetry (telemetry ∷ []),
        );
        bytes = quiet logged ps _ q c.bytes;
      }

      branch :
          (x : JointDecision)
          → (next : Option Node) × (route plan_node (planned_state x telemetry d s) ≡ ok next)
            × Goes (logged ++ ps) (3 * s.remaining_steps + 2) next (planned_state x telemetry d s)
      branch (action a) = (
        some execute_node,
        refl,
        (
          (
            common (action a),
            record {
              actions = r.actions;
              chosen = a;
              decision = refl;
              snapshot = i;
              infrastructure = e;
              decisions = ap (λ (ds : List JointDecision). ds ++ action a ∷ []) r.decisions;
              observed = r.observed;
            },
          ),
          omega (arith, left),
        ),
      )
      branch (finish f) = (
        some finalize_node,
        refl,
        (
          (
            common (finish f),
            record {
              actions = r.actions;
              observed = r.observed;
              last = inl (f, ap (λ (ds : List JointDecision). ds ++ finish f ∷ []) r.decisions);
            },
          ),
          omega (arith, left),
        ),
      )

  abbrev conclude_plan :
      JointDecision → CallTelemetry → PlanningState → Cursor → Effect (Traced W) PlanningState
  conclude_plan decision telemetry s d = pure (planned_state decision telemetry d s)

  abbrev propose :
      JointDecision → CallTelemetry → PlanningState → Cursor → Effect (Traced W) PlanningState
  propose decision telemetry s d =
      emit_from_values platform true s.run_id d (proposed platform true services decision)
      >>= conclude_plan decision telemetry s

  proposed_quiet :
      (n : ℕ) (decision : JointDecision) (telemetry : CallTelemetry)
      → bytes_logged (
          planner_start n
          ∷ planner_end decision telemetry
          ∷ proposed platform true services decision
          ∷ [])
        ≡ 0
  proposed_quiet n (action a) telemetry = refl
  proposed_quiet n (finish f) telemetry = refl

  plan-Visits :
      (logged : List Payload) (s : PlanningState)
      → Before run_id budget initial_bytes logged plan_node s
      → Visits logged plan_node s
  unfolding visit plan
  plan-Visits logged s b =
      let asked = context_of platform true services s in
      Logs-emit platform run_id E s.run_id (cursor_of s) (planner_start s.remaining_steps) _ b.0.run
        (Logs-total platform run_id E _ platform.perf_counter _ λ started.
          Logs-world platform run_id E _ (services.decide asked) _ (raises.decide asked) λ outcome.
            Logs-total platform run_id E _ platform.perf_counter _ λ stopped.
              let telemetry : CallTelemetry = record {
                latency_ms = platform.elapsed_ms started stopped;
                model = outcome.model_telemetry;
              } in
              let last = proposed platform true services outcome.decision in
              Logs-emit platform run_id E s.run_id _ (planner_end outcome.decision telemetry)
                (propose outcome.decision telemetry s) b.0.run
                (Logs-emit platform run_id E s.run_id _ last
                  (conclude_plan outcome.decision telemetry s) b.0.run
                  (Logs-pure run_id E _ (
                    plan-Step logged s outcome.decision telemetry _ _
                      (proposed_quiet s.remaining_steps outcome.decision telemetry) b))))

  abbrev executed_payloads : JointAction → ExecutionResult → List Payload
  executed_payloads a o =
      operator_start a.semantic.operator ∷ (map transfer_end o.transfers ++ operator_end o ∷ [])

  abbrev executed_state : ExecutionResult → Cursor → PlanningState → PlanningState
  executed_state o d s = with_cursor d (record s { observations = s.observations ++ o ∷ [] })

  execute-Step :
      (logged : List Payload) (s : PlanningState) (a : JointAction) (o : ExecutionResult)
      (d : Cursor)
      → Before run_id budget initial_bytes logged execute_node s
      → Step logged execute_node s (executed_state o d s) (executed_payloads a o) d
  unfolding route
  execute-Step logged s a o d (c, r) = (
    refl,
    (
      some observe_node,
      refl,
      (
        (
          record {
            run = c.run;
            steps = c.steps;
            calls = c.calls;
            bytes = omega (
              arith,
              c.bytes,
              bytes_logged-append logged (executed_payloads a o),
              bytes_logged-append (map transfer_end o.transfers) (operator_end o ∷ []),
              bytes_logged-transfers o.transfers,
              observed-append s.observations (o ∷ []),
            );
          },
          record {
            actions = r.actions ++ r.chosen ∷ [];
            decisions = r.decisions ∙ sym (decided-append r.actions r.chosen);
            observed = omega (
              arith,
              r.observed,
              length-append r.actions (r.chosen ∷ []),
              length-append s.observations (o ∷ []),
            );
          },
        ),
        omega arith,
      ),
    ),
  )

  execute_pending-Logs :
      (logged : List Payload) (s : PlanningState) (a : JointAction) (i : InfrastructureState)
      (p : Option JointDecision) (q : Option InfrastructureState)
      → p ≡ some (action a)
      → q ≡ some i
      → Before run_id budget initial_bytes logged execute_node s
      → Logs run_id E
          (cursor_of s)
          (execute_pending platform true services p q s)
          (Step logged execute_node s)
  unfolding execute_pending
  execute_pending-Logs logged s a i p q e e' b =
      rw (e, e')
        (Logs-emit platform run_id E s.run_id (cursor_of s) _ _ b.0.run (
          Logs-world platform run_id E _ (services.execute a i) _ (raises.execute a i) λ o.
            Logs-emit_all platform run_id E s.run_id _ (map transfer_end o.transfers) _ b.0.run (
              Logs-emit platform run_id E s.run_id _ _ _ b.0.run
                (Logs-pure run_id E _ (execute-Step logged s a o _ b)))))

  execute-Visits :
      (logged : List Payload) (s : PlanningState)
      → Before run_id budget initial_bytes logged execute_node s
      → Visits logged execute_node s
  unfolding visit
  execute-Visits logged s b =
      execute_pending-Logs logged s b.1.chosen b.1.snapshot _ _ b.1.decision b.1.infrastructure b

  abbrev finalized_state : String → CallTelemetry → Cursor → PlanningState → PlanningState
  finalized_state answer telemetry d s =
      with_cursor d (record s { final_answer = some answer; finalizer_telemetry = some telemetry })

  finalize-Step :
      (logged : List Payload) (s : PlanningState) (answer : String) (telemetry : CallTelemetry)
      (d : Cursor) (ps : List Payload)
      → bytes_logged ps ≡ 0
      → Before run_id budget initial_bytes logged finalize_node s
      → Step logged finalize_node s (finalized_state answer telemetry d s) ps d
  unfolding route
  finalize-Step logged s answer telemetry d ps q (c, r) = (
    refl,
    (
      some evaluate_node,
      refl,
      (
        (
          record {
            run = c.run;
            steps = c.steps;
            calls = c.calls;
            bytes = quiet logged ps _ q c.bytes;
          },
          (
            record { actions = r.actions; observed = r.observed; last = r.last },
            record {
              answer = answer;
              final_answer = refl;
              telemetry = telemetry;
              finalizer = refl;
            },
          ),
        ),
        omega arith,
      ),
    ),
  )

  abbrev conclude_answer :
      String → CallTelemetry → PlanningState → Cursor → Effect (Traced W) PlanningState
  conclude_answer answer telemetry s d = pure (finalized_state answer telemetry d s)

  finalize-Visits :
      (logged : List Payload) (s : PlanningState)
      → Before run_id budget initial_bytes logged finalize_node s
      → Visits logged finalize_node s
  unfolding visit finalize
  finalize-Visits logged s b =
      Logs-emit platform run_id E s.run_id (cursor_of s) finalize_start _ b.0.run (
        Logs-total platform run_id E _ platform.perf_counter _ λ started.
          Logs-world platform run_id E _ (services.finalize s.task s.decisions s.observations) _
            (raises.finalize s.task s.decisions s.observations)
            λ outcome. Logs-total platform run_id E _ platform.perf_counter _ λ stopped.
              let telemetry : CallTelemetry = record {
                latency_ms = platform.elapsed_ms started stopped;
                model = outcome.model_telemetry;
              } in
              Logs-emit platform run_id E s.run_id _ (finalize_end outcome.answer telemetry)
                (conclude_answer outcome.answer telemetry s) b.0.run
                (Logs-pure run_id E _ (finalize-Step logged s outcome.answer telemetry _ _ refl b)))

  evaluate-Step :
      (logged : List Payload) (s : PlanningState) (result : EvaluationResult) (d : Cursor)
      (ps : List Payload)
      → bytes_logged ps ≡ 0
      → Before run_id budget initial_bytes logged evaluate_node s
      → Step logged evaluate_node s (with_cursor d (record s { evaluation = some result })) ps d
  unfolding route
  evaluate-Step logged s result d ps q (c, (r, a)) = (
    refl,
    (
      none,
      refl,
      record {
        common = record {
          run = c.run;
          steps = c.steps;
          calls = c.calls;
          bytes = quiet logged ps _ q c.bytes;
        };
        concluded = record { actions = r.actions; observed = r.observed; last = r.last };
        answered = record {
          answer = a.answer;
          final_answer = a.final_answer;
          telemetry = a.telemetry;
          finalizer = a.finalizer;
        };
        result = result;
        evaluation = refl;
      },
    ),
  )

  evaluate_answer-Logs :
      (logged : List Payload) (s : PlanningState) (o : Option String) (answer : String)
      → o ≡ some answer
      → Before run_id budget initial_bytes logged evaluate_node s
      → Logs run_id E
          (cursor_of s)
          (evaluate_answer platform true services o s)
          (Step logged evaluate_node s)
  unfolding evaluate_answer
  evaluate_answer-Logs logged s o answer e b = rw e (
      Logs-world platform run_id E (cursor_of s) (services.evaluate s.task answer) _
        (raises.evaluate s.task answer)
        λ result.
          Logs-emit platform run_id E s.run_id _ _ _ b.0.run
            (Logs-pure run_id E _ (evaluate-Step logged s result _ _ refl b)))

  evaluate-Visits :
      (logged : List Payload) (s : PlanningState)
      → Before run_id budget initial_bytes logged evaluate_node s
      → Visits logged evaluate_node s
  unfolding visit
  evaluate-Visits logged s b = evaluate_answer-Logs logged s _ b.1.1.answer b.1.1.final_answer b

  -- Every node logs its events, and leads to a node that is ready, with fewer nodes needed, or to
  -- the end.
  pub visit-Visits :
      (node : Node) (logged : List Payload) (s : PlanningState)
      → Before run_id budget initial_bytes logged node s
      → Visits logged node s
  visit-Visits observe_node = observe-Visits
  visit-Visits plan_node = plan-Visits
  visit-Visits execute_node = execute-Visits
  visit-Visits finalize_node = finalize-Visits
  visit-Visits evaluate_node = evaluate-Visits
