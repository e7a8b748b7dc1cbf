-- ===== src/Graph/Progress.antt =====
-- How far a run is: what holds of the planning state and of the logged payloads when a node begins.
use infra_joint_planner.Prelude.{
  ℕ, ◌+◌, ◌*◌, ◌<◌, String, ◌≡◌, refl, ◌⊎◌, List, [], ◌∷◌, ◌++◌, some, length, arith, ap,
}
use infra_joint_planner.Core.Action.{JointAction, FinishDecision, JointDecision, action, finish}
use infra_joint_planner.Core.State.{InfrastructureState}
use infra_joint_planner.Executor.{ExecutionResult}
use infra_joint_planner.Evaluation.{EvaluationResult}
use infra_joint_planner.Graph.Trace.{Payload, CallTelemetry, PlanningState}
use infra_joint_planner.Graph.Nodes.{
  Node, observe_node, plan_node, execute_node, finalize_node, evaluate_node,
}
use infra_joint_planner.Graph.Bytes.{bytes_logged, observed}

-- The decisions that carry the actions.
abbrev pub decided : List JointAction → List JointDecision
decided [] = []
decided (a ∷ acts) = action a ∷ decided acts

pub decided-append :
    (acts : List JointAction) (a : JointAction)
    → decided (acts ++ a ∷ []) ≡ decided acts ++ action a ∷ []
decided-append [] a = refl
decided-append (b ∷ acts) a = ap (λ ds. action b ∷ ds) (decided-append acts a)

-- Planning has ended: each action has its observation, and either a decision to finish follows the
-- actions, or as many actions were taken as the budget allows.
pub record Concluded (budget : ℕ) (decisions : List JointDecision)
    (observations : List ExecutionResult) : Type 0 where
  pub actions : List JointAction
  pub observed : length actions ≡ length observations
  pub last :
      ((f : FinishDecision) × (decisions ≡ decided actions ++ finish f ∷ []))
      ⊎ (decisions ≡ decided actions) × (length actions ≡ budget)

module _ (run_id : String) (budget initial_bytes : ℕ) where
  -- What holds at every node.
  pub record Common (logged : List Payload) (s : PlanningState) : Type 0 where
    pub run : s.run_id ≡ run_id
    pub steps : length s.decisions + s.remaining_steps ≡ budget
    pub calls : length s.planner_telemetry ≡ length s.decisions
    pub bytes : bytes_logged logged ≡ initial_bytes + observed s.observations

  -- Every action so far has its observation.
  pub record Settled (s : PlanningState) : Type 0 where
    pub actions : List JointAction
    pub decisions : s.decisions ≡ decided actions
    pub observed : length actions ≡ length s.observations

  -- An action has been decided and is to be executed.
  pub record Pending (s : PlanningState) : Type 0 where
    pub actions : List JointAction
    pub chosen : JointAction
    pub decision : s.pending_decision ≡ some (action chosen)
    pub snapshot : InfrastructureState
    pub infrastructure : s.infrastructure ≡ some snapshot
    pub decisions : s.decisions ≡ decided actions ++ action chosen ∷ []
    pub observed : length actions ≡ length s.observations

  pub record Answered (s : PlanningState) : Type 0 where
    pub answer : String
    pub final_answer : s.final_answer ≡ some answer
    pub telemetry : CallTelemetry
    pub finalizer : s.finalizer_telemetry ≡ some telemetry

  abbrev pub Ready : Node → PlanningState → Type 0
  Ready observe_node s = Settled s
  Ready plan_node s =
      Settled s
      × (0 < s.remaining_steps)
      × ((i : InfrastructureState) × (s.infrastructure ≡ some i))
  Ready execute_node s = Pending s
  Ready finalize_node s = Concluded budget s.decisions s.observations
  Ready evaluate_node s = Concluded budget s.decisions s.observations × Answered s

  -- What holds when a node begins.
  abbrev pub Before : List Payload → Node → PlanningState → Type 0
  Before logged node s = Common logged s × Ready node s

  -- What holds when the graph has ended.
  pub record Finished (logged : List Payload) (s : PlanningState) : Type 0 where
    pub common : Common logged s
    pub concluded : Concluded budget s.decisions s.observations
    pub answered : Answered s
    pub result : EvaluationResult
    pub evaluation : s.evaluation ≡ some result

-- How many nodes the run still needs, this one included.
abbrev pub nodes_needed : Node → ℕ → ℕ
nodes_needed observe_node remaining = 3 * remaining + 3
nodes_needed plan_node remaining = 3 * remaining + 2
nodes_needed execute_node remaining = 3 * remaining + 4
nodes_needed finalize_node remaining = 2
nodes_needed evaluate_node remaining = 1

pub length-decided : (acts : List JointAction) → length (decided acts) ≡ length acts
length-decided [] = refl
length-decided (a ∷ acts) = omega (arith, length-decided acts)
