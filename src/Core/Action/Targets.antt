-- ===== src/Core/Action/Targets.antt =====
-- The explicit targets that a validated physical decision carries.
use infra_joint_planner.Prelude.{
  String, ◌≡◌, refl, ◌≢◌, ◌↔◌, ◌⊎◌, inl, true, false, Option, none, some, arith, eq_iff,
}
use infra_joint_planner.Core.Errors.{ok}
use infra_joint_planner.Core.Action.{
  PhysicalPolicy, target_agent, target_deployment, PhysicalDecision, truthy, target_matches_policy,
  check_physical_decision,
}

-- An independent reading: the policy names exactly the target that is given, and it is not empty.
abbrev pub HasTarget : Option String → Type 0
HasTarget o = (s : String) × (o ≡ some s) × (s ≢ "")

abbrev pub LacksTarget : Option String → Type 0
LacksTarget o = (o ≡ none) ⊎ (o ≡ some "")

abbrev pub TargetsFit : PhysicalPolicy → Option String → Option String → Type 0
TargetsFit target_agent agent deployment = HasTarget agent × LacksTarget deployment
TargetsFit target_deployment agent deployment = HasTarget deployment × LacksTarget agent
TargetsFit _ agent deployment = LacksTarget agent × LacksTarget deployment

truthy-HasTarget : (o : Option String) → truthy o ≡ true → HasTarget o
truthy-HasTarget none h = absurd (cc)
truthy-HasTarget (some s) h = (s, refl, λ e. ground (arith, eq_iff s ""))

truthy-LacksTarget : (o : Option String) → truthy o ≡ false → LacksTarget o
truthy-LacksTarget none h = inl refl
truthy-LacksTarget (some s) h = ground (arith, eq_iff s "")

HasTarget-truthy : (o : Option String) → HasTarget o → truthy o ≡ true
HasTarget-truthy none (s, e, ne) = absurd (cc)
HasTarget-truthy (some t) (s, e, ne) = ground (arith, eq_iff t "")

LacksTarget-truthy : (o : Option String) → LacksTarget o → truthy o ≡ false
LacksTarget-truthy none h = refl
LacksTarget-truthy (some t) h = ground (arith, eq_iff t "")

module _ (agent deployment : Option String) where
  fit_of_match :
      (p : PhysicalPolicy)
      → target_matches_policy p agent deployment ≡ true
      → TargetsFit p agent deployment
  unfolding target_matches_policy
  fit_of_match target_agent h =
      (truthy-HasTarget agent (ground arith), truthy-LacksTarget deployment (ground arith))
  fit_of_match target_deployment h =
      (truthy-HasTarget deployment (ground arith), truthy-LacksTarget agent (ground arith))
  fit_of_match _ h =
      (truthy-LacksTarget agent (ground arith), truthy-LacksTarget deployment (ground arith))

  match_of_fit :
      (p : PhysicalPolicy)
      → TargetsFit p agent deployment
      → target_matches_policy p agent deployment ≡ true
  unfolding target_matches_policy
  match_of_fit target_agent h = rw (HasTarget-truthy agent h.0, LacksTarget-truthy deployment h.1)
  match_of_fit target_deployment h =
      rw (HasTarget-truthy deployment h.0, LacksTarget-truthy agent h.1)
  match_of_fit _ h = rw (LacksTarget-truthy agent h.0, LacksTarget-truthy deployment h.1)

-- A physical decision is accepted exactly when its targets fit its policy: `target_agent` and
-- `target_deployment` carry their own target, not empty, and not the other one; the other policies
-- carry no target.
pub check_physical_decision_iff :
    (d : PhysicalDecision)
    → (check_physical_decision d ≡ ok d)
      ↔ TargetsFit d.policy d.target_agent_id d.target_deployment_id
unfolding check_physical_decision
check_physical_decision_iff d = (
  λ h. fit_of_match d.target_agent_id d.target_deployment_id d.policy (ground arith),
  λ fit. rw (match_of_fit d.target_agent_id d.target_deployment_id d.policy fit),
)
