-- ===== src/Core/Action.antt =====
-- core/action.py: semantic actions, physical decisions and the decisions of a planner.
-- A contract is a record, and `check_…` is what its constructor validates.
pub mod Targets
use infra_joint_planner.Prelude.{
  String, Bool, true, false, not, ◌&&◌, ◌||◌, List, [], ◌∷◌, Option, none, some, ◌==◌,
  if◌then◌else◌,
}
use infra_joint_planner.Core.Errors.{Result, ok, err, ◌>>=◌, ◌>>◌, require, validation_error, words}
use infra_joint_planner.Core.Json.{Fields}

pub data PhysicalPolicy : Type 0 where
  auto data_local target_agent target_deployment : PhysicalPolicy

pub record SemanticAction : Type 0 where
  pub operator : String
  pub inputs : List String
  pub arguments : Fields

pub record PhysicalDecision : Type 0 where
  pub policy : PhysicalPolicy
  pub target_agent_id : Option String
  pub target_deployment_id : Option String

pub record JointAction : Type 0 where
  pub semantic : SemanticAction
  pub physical : PhysicalDecision

pub record FinishDecision : Type 0 where
  pub reason : String

pub data JointDecision : Type 0 where
  action : JointAction → JointDecision
  finish : FinishDecision → JointDecision

-- `bool(x)` of an optional text: None and the empty text are false.
abbrev pub truthy : Option String → Bool
truthy none = false
truthy (some s) = not (s == "")

-- `Field(min_length=1)`
abbrev pub nonempty : String → Bool
nonempty s = not (s == "")

unfoldable pub check_semantic_action : SemanticAction → Result SemanticAction
check_semantic_action a = do
  require (nonempty a.operator) (validation_error (words "operator is empty" ∷ []))
  ok a

unfoldable pub target_matches_policy : PhysicalPolicy → Option String → Option String → Bool
target_matches_policy target_agent agent deployment = not (not (truthy agent) || truthy deployment)
target_matches_policy target_deployment agent deployment =
    not (not (truthy deployment) || truthy agent)
target_matches_policy _ agent deployment = not (truthy agent || truthy deployment)

unfoldable pub check_physical_decision : PhysicalDecision → Result PhysicalDecision
unfolding target_matches_policy
check_physical_decision d = do
  require (target_matches_policy d.policy d.target_agent_id d.target_deployment_id)
      (validation_error (words "policy and explicit targets do not match" ∷ []))
  ok d

unfoldable pub check_finish_decision : FinishDecision → Result FinishDecision
check_finish_decision d = do
  require (nonempty d.reason) (validation_error (words "reason is empty" ∷ []))
  ok d
