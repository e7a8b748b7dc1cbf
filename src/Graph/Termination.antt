-- ===== src/Graph/Termination.antt =====
-- The loop over the nodes ends, within the nodes that it is allowed.
use mathlib.Core.List.{append_assoc, append-nil}
use mathlib.Core.Path.{subst}
use infra_joint_planner.Prelude.{
  ℕ, zero, suc, ◌≤◌, String, ◌≡◌, refl, sym, ◌∙◌, true, List, [], ◌++◌, Option, none, some, arith,
}
use infra_joint_planner.Core.Errors.{Exception}
use infra_joint_planner.Effects.{Effect, pure, lift, ◌>>=◌, Platform}
use infra_joint_planner.Graph.Trace.{Payload, PlanningState, Traced}
use infra_joint_planner.Graph.Nodes.{
  Services, Node, observe_node, plan_node, execute_node, finalize_node, evaluate_node, Cursor,
  cursor_of, visit, route,
}
use infra_joint_planner.Graph.Run.{run_from, then_visit}
use infra_joint_planner.Graph.Logic.{Logs, Logs-pure, Logs-bind, Logs-weaken}
use infra_joint_planner.Graph.Emissions.{Logs-lift}
use infra_joint_planner.Graph.Progress.{Before, Finished, nodes_needed}
use infra_joint_planner.Graph.Steps.{ServicesRaise, Goes, visit-Visits}

module _ {W : Type 0} (platform : Platform W) (services : Services W) (run_id : String)
    (E : Exception → Type 0) (raises : ServicesRaise E services) (budget initial_bytes : ℕ) where
  abbrev pub Ends : List Payload → PlanningState → List Payload → Cursor → Type 0
  Ends logged s ps d = (cursor_of s ≡ d) × Finished run_id budget initial_bytes (logged ++ ps) s

  some_needed : (node : Node) (r : ℕ) → nodes_needed node r ≤ 0 → ⊥
  some_needed observe_node r h = omega arith
  some_needed plan_node r h = omega arith
  some_needed execute_node r h = omega arith
  some_needed finalize_node r h = omega arith
  some_needed evaluate_node r h = omega arith

  ended :
      (logged ps : List Payload) (s : PlanningState)
      → Finished run_id budget initial_bytes (logged ++ ps) s
      → Logs {W = W} run_id E (cursor_of s) (pure s) (λ s' qs d. Ends logged s' (ps ++ qs) d)
  ended logged ps s f = Logs-pure run_id E s (
    refl,
    subst (λ l. Finished run_id budget initial_bytes l s)
        (sym (append-nil (logged ++ ps)) ∙ append_assoc logged ps []) f,
  )

  further :
      (logged ps : List Payload) (c : Cursor) (m : Effect (Traced W) PlanningState)
      → Logs run_id E c m (Ends (logged ++ ps))
      → Logs run_id E c m (λ s' qs d. Ends logged s' (ps ++ qs) d)
  further logged ps c m h = Logs-weaken run_id E m h λ s' qs d x.
      (x.0, subst (λ l. Finished run_id budget initial_bytes l s') (append_assoc logged ps qs) x.1)

  -- Behind a node: the end, or the node that follows.
  follow :
      (limit n : ℕ) (logged ps : List Payload) (after : PlanningState) (next : Option Node)
      → n ≤ suc limit
      → ((node : Node)
          → Before run_id budget initial_bytes (logged ++ ps) node after
          → nodes_needed node after.remaining_steps ≤ limit
          → Logs run_id E
              (cursor_of after)
              (run_from platform true services limit node after)
              (Ends (logged ++ ps)))
      → Goes platform services run_id E raises budget initial_bytes (logged ++ ps) n next after
      → Logs run_id E
          (cursor_of after)
          (then_visit platform true services after
            (λ following. run_from platform true services limit following after)
            next)
          (λ s' qs d. Ends logged s' (ps ++ qs) d)
  follow limit n logged ps after none h rec f = ended logged ps after f
  follow limit n logged ps after (some node) h rec (b, l) =
      further logged ps (cursor_of after) _ (rec node b (omega (arith, h, l)))

  -- With as many nodes as are needed, the loop reaches the end, or raises what a service raises.
  pub run_from-Logs :
      (limit : ℕ) (node : Node) (logged : List Payload) (s : PlanningState)
      → Before run_id budget initial_bytes logged node s
      → nodes_needed node s.remaining_steps ≤ limit
      → Logs run_id E (cursor_of s) (run_from platform true services limit node s) (Ends logged)
  unfolding run_from
  run_from-Logs zero node logged s b n = absurd (some_needed node s.remaining_steps n)
  run_from-Logs (suc limit) node logged s b n =
      Logs-bind run_id E (visit platform true services node s) _
        (visit-Visits platform services run_id E raises budget initial_bytes node logged s b)
        λ after ps d (e, (next, r, g)).
          let go =
            then_visit platform true services after
              (λ following. run_from platform true services limit following after) in
          subst
            (λ c.
              Logs {W = W} run_id E c (lift (route node after) >>= go)
                (λ s' qs d'. Ends logged s' (ps ++ qs) d'))
            e
            (Logs-lift platform run_id E (cursor_of after) (route node after) _ (λ x k. absurd (cc))
              λ next' r'.
                let same : next ≡ next' = cc in
                follow limit _ logged ps after next' n
                  (λ m. run_from-Logs limit m (logged ++ ps) after)
                  (subst
                    (λ o.
                      Goes platform services run_id E raises budget initial_bytes (logged ++ ps)
                        (nodes_needed node s.remaining_steps) o after)
                    same g))
