-- ===== src/Planner/Placement.antt =====
-- The model-backed planner leaves placement to the resolver.
use infra_joint_planner.Prelude.{
  String, ◌≡◌, refl, [], ◌∷◌, Option, none, some, ◌⊎◌, inl, inr, Bool-cases,
}
use mathlib.Core.Path.{subst}
use infra_joint_planner.Core.Errors.{words, validation_error, Message, Exception, Result, ok, err}
use infra_joint_planner.Core.Action.{
  SemanticAction, FinishDecision, JointDecision, action, finish, nonempty, check_semantic_action,
  check_physical_decision, check_finish_decision, target_matches_policy,
}
use infra_joint_planner.Registry.{OperatorRegistry, Validator, validate_action}
use infra_joint_planner.Model.{ModelRequest, ModelCompletion}
use infra_joint_planner.Effects.{Effect, pure, lift, continue, ◌>>=◌, ◌>>◌}
use infra_joint_planner.Planner.{PlannerOutcome, BlindPlannerContext}
use infra_joint_planner.Planner.Prompts.{Dumps, render_planner_prompt}
use infra_joint_planner.Planner.Decide.{
  BlindProposal, action_proposal, finish_proposal, automatic, rethrow, as_decision_error,
  plain_request, decide_proposal, decide,
}

-- An action is placed automatically, and the registry accepts it.
abbrev pub IsAcceptable : {H : Type 0} → Validator → OperatorRegistry H → JointDecision → Type 0
IsAcceptable iter_errors registry (finish f) = Unit
IsAcceptable iter_errors registry (action a) =
    (a.physical ≡ automatic) × (validate_action iter_errors a.semantic registry ≡ ok tt)

semantic_cases :
    (a : SemanticAction)
    → (check_semantic_action a ≡ ok a) ⊎ ((e : Exception) × (check_semantic_action a ≡ err e))
unfolding check_semantic_action
semantic_cases a = elim (Bool-cases (nonempty a.operator)) [
  | inl h ↦ inl (rw h refl)
  | inr h ↦ inr (validation_error (words "operator is empty" ∷ []), rw h refl)
]

module _ {W H : Type 0} (iter_errors : Validator) (show : Exception → Message)
    (parse : String → Option BlindProposal) (registry : OperatorRegistry H) where
  -- The part of an action's decision behind the check of its fields.
  abbrev checked : SemanticAction → ModelCompletion → Result (Unit {0}) → Effect W PlannerOutcome
  checked semantic completion v =
      lift (rethrow (as_decision_error show) v)
      >> (lift (check_physical_decision automatic) >>= λ physical. pure (record {
        decision = action (record { semantic = semantic; physical = physical });
        model_telemetry = some completion.telemetry;
      }))

  checked-IsAcceptable :
      (semantic : SemanticAction) (completion : ModelCompletion) (v : Result (Unit {0}))
      → validate_action iter_errors semantic registry ≡ v
      → (w : W) (outcome : PlannerOutcome) → (checked semantic completion v w).0 ≡ ok outcome
      → IsAcceptable iter_errors registry outcome.decision
  unfolding check_physical_decision target_matches_policy
  checked-IsAcceptable semantic completion (ok u) e w outcome h =
      let same : record {
        decision = action (record { semantic = semantic; physical = automatic });
        model_telemetry = some completion.telemetry;
      }
          ≡ outcome =
        cc in
      subst (λ (o : PlannerOutcome). IsAcceptable iter_errors registry o.decision) same (refl, e)
  checked-IsAcceptable semantic completion (err x) e w outcome h = absurd (cc)

  behind :
      (semantic : SemanticAction) (completion : ModelCompletion) (s : Result SemanticAction)
      → (s ≡ ok semantic) ⊎ ((e : Exception) × (s ≡ err e))
      → (w : W) (outcome : PlannerOutcome)
      → ((lift {W = W} s >>= λ x. checked x completion (validate_action iter_errors x registry))
          w).0
        ≡ ok outcome
      → IsAcceptable iter_errors registry outcome.decision
  behind semantic completion s (inl e) w outcome h =
      checked-IsAcceptable semantic completion _ refl w outcome (rw e at h)
  behind semantic completion s (inr (x, e)) w outcome h = absurd (bad (rw e at h))
    where
      bad : ◌≡◌ {A = Result PlannerOutcome} (err x) (ok outcome) → ⊥
      bad k = cc

  finished :
      (r : Result FinishDecision) (completion : ModelCompletion) (w : W) (outcome : PlannerOutcome)
      → ((lift {W = W} r >>= λ f.
            pure (record { decision = finish f; model_telemetry = some completion.telemetry }))
          w).0
        ≡ ok outcome
      → IsAcceptable iter_errors registry outcome.decision
  finished (ok f) completion w outcome h =
      let same : record { decision = finish f; model_telemetry = some completion.telemetry }
          ≡ outcome =
        cc in
      subst (λ (o : PlannerOutcome). IsAcceptable iter_errors registry o.decision) same tt
  finished (err e) completion w outcome h = absurd (cc)

  decide_proposal-IsAcceptable :
      (p : Option BlindProposal) (completion : ModelCompletion) (w : W) (outcome : PlannerOutcome)
      → (decide_proposal iter_errors show parse registry p completion w).0 ≡ ok outcome
      → IsAcceptable iter_errors registry outcome.decision
  unfolding decide_proposal
  decide_proposal-IsAcceptable none completion w outcome h = absurd (cc)
  decide_proposal-IsAcceptable (some (finish_proposal reason)) completion w outcome h =
      finished (check_finish_decision (record { reason = reason })) completion w outcome h
  decide_proposal-IsAcceptable (some (action_proposal operator inputs arguments)) completion w
        outcome h =
      behind (record { operator = operator; inputs = inputs; arguments = arguments }) completion _
        (semantic_cases (record { operator = operator; inputs = inputs; arguments = arguments })) w
        outcome h

  asked :
      (r : Result ModelCompletion × W) (outcome : PlannerOutcome)
      → (continue r λ completion.
          decide_proposal iter_errors show parse registry (parse completion.text) completion).0
        ≡ ok outcome
      → IsAcceptable iter_errors registry outcome.decision
  asked (ok completion, w) outcome h =
      decide_proposal-IsAcceptable (parse completion.text) completion w outcome h
  asked (err e, w) outcome h = absurd (cc)

  rendered :
      (r : Result String) (invoke : ModelRequest → Effect W ModelCompletion) (w : W)
      (outcome : PlannerOutcome)
      → ((lift r >>= λ prompt. invoke (plain_request prompt) >>= λ completion.
            decide_proposal iter_errors show parse registry (parse completion.text) completion)
          w).0
        ≡ ok outcome
      → IsAcceptable iter_errors registry outcome.decision
  rendered (ok prompt) invoke w outcome h = asked (invoke (plain_request prompt) w) outcome h
  rendered (err e) invoke w outcome h = absurd (cc)

  -- Whatever the model answers, a decision that the model-backed planner returns is to finish, or an
  -- action that the registry accepts, placed automatically and with no target.
  pub decide-IsAcceptable :
      (dumps : Dumps) (invoke : ModelRequest → Effect W ModelCompletion)
      (context : BlindPlannerContext) (w : W) (outcome : PlannerOutcome)
      → (decide iter_errors show parse registry dumps invoke context w).0 ≡ ok outcome
      → IsAcceptable iter_errors registry outcome.decision
  unfolding decide
  decide-IsAcceptable dumps invoke context w outcome h =
      rendered (render_planner_prompt dumps registry context) invoke w outcome h
