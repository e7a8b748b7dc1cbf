-- ===== src/Planner/Decide.antt =====
-- planning/planner.py and planning/finalize.py: the scripted planner, the model-backed planner and the
-- two finalizers. The JSON decoder with the proposals' schema, and the `str` of an exception, are
-- parameters.
use infra_joint_planner.Prelude.{String, ◌||◌, List, [], ◌∷◌, Option, none, some, if◌then◌else◌}
use infra_joint_planner.Core.Errors.{
  words, Message, Exception, is_value_error, is_key_error, Result, ok, err, runtime_error,
  planner_decision_error,
}
use infra_joint_planner.Core.Json.{Json, str, Fields, get_field}
use infra_joint_planner.Core.Action.{
  PhysicalDecision, auto, JointDecision, action, finish, check_semantic_action,
  check_physical_decision, check_finish_decision,
}
use infra_joint_planner.Core.Task.{TaskContract}
use infra_joint_planner.Registry.{OperatorRegistry, Validator, validate_action}
use infra_joint_planner.Model.{ModelRequest, ModelCompletion}
use infra_joint_planner.Executor.{ExecutionResult}
use infra_joint_planner.Planner.{PlannerOutcome, BlindPlannerContext, FinalizationOutcome}
use infra_joint_planner.Planner.Prompts.{Dumps, render_planner_prompt, render_finalizer_prompt}
use infra_joint_planner.Effects.{Effect, pure, raise, lift, ◌>>=◌, ◌>>◌}

-- `ScriptedBlindPlanner.decide`, on the queue of its decisions.
unfoldable pub scripted_decide : Effect (List JointDecision) PlannerOutcome
scripted_decide [] =
    (err (runtime_error (words "scripted planner has no decision remaining" ∷ [])), [])
scripted_decide (d ∷ ds) = (ok (record { decision = d; model_telemetry = none }), ds)

pub data BlindProposal : Type 0 where
  action_proposal : String → List String → Fields → BlindProposal
  finish_proposal : String → BlindProposal

abbrev pub plain_request : String → ModelRequest
plain_request prompt = record { prompt = prompt; artifacts = []; max_output_tokens = none }

abbrev pub automatic : PhysicalDecision
automatic = record { policy = auto; target_agent_id = none; target_deployment_id = none }

-- `except (KeyError, ValueError)`
abbrev pub as_decision_error : (Exception → Message) → Exception → Exception
as_decision_error show e =
    if is_key_error e || is_value_error e then planner_decision_error (show e) else e

abbrev pub rethrow : {A : Type 0} → (Exception → Exception) → Result A → Result A
rethrow f (ok a) = ok a
rethrow f (err e) = err (f e)

module _ {W H : Type 0} (iter_errors : Validator) (show : Exception → Message)
    (parse : String → Option BlindProposal) (registry : OperatorRegistry H) where
  -- The part of `decide` behind the model's answer.
  unfoldable pub decide_proposal : Option BlindProposal → ModelCompletion → Effect W PlannerOutcome
  decide_proposal none completion = raise (
      planner_decision_error
        (words "blind planner must return exactly one valid JSON decision object" ∷ []))
  decide_proposal (some (finish_proposal reason)) completion = do
    decision ← lift (check_finish_decision (record { reason = reason }))
    pure (record { decision = finish decision; model_telemetry = some completion.telemetry })
  decide_proposal (some (action_proposal operator inputs arguments)) completion = do
    semantic ← lift (
        check_semantic_action
          (record { operator = operator; inputs = inputs; arguments = arguments }))
    lift (rethrow (as_decision_error show) (validate_action iter_errors semantic registry))
    physical ← lift (check_physical_decision automatic)
    pure (record {
      decision = action (record { semantic = semantic; physical = physical });
      model_telemetry = some completion.telemetry;
    })

  module _ (dumps : Dumps) (invoke : ModelRequest → Effect W ModelCompletion) where
    -- `LLMBlindPlanner.decide`
    unfoldable pub decide : BlindPlannerContext → Effect W PlannerOutcome
    decide context = do
      prompt ← lift (render_planner_prompt dumps registry context)
      completion ← invoke (plain_request prompt)
      decide_proposal (parse completion.text) completion

module _ {W : Type 0} (dumps : Dumps) (invoke : ModelRequest → Effect W ModelCompletion) where
  -- `ContractAwareFinalizer.finalize`: the answer is the model's text.
  unfoldable pub contract_aware_finalize :
      TaskContract → List JointDecision → List ExecutionResult → Effect W FinalizationOutcome
  contract_aware_finalize task decisions observations = do
    completion ← invoke (plain_request (render_finalizer_prompt dumps task decisions observations))
    pure (record { answer = completion.text; model_telemetry = some completion.telemetry })

abbrev text_or_empty : Option Json → String
text_or_empty (some (str s)) = s
text_or_empty _ = ""

abbrev last : List ExecutionResult → Option ExecutionResult
last [] = none
last (o ∷ []) = some o
last (o ∷ p ∷ os) = last (p ∷ os)

abbrev answer_of : Option ExecutionResult → String
answer_of none = ""
answer_of (some o) = text_or_empty (get_field "text" o.output)

-- `LastModelOutputFinalizer.finalize`
unfoldable pub last_output_finalize :
    TaskContract → List JointDecision → List ExecutionResult → FinalizationOutcome
last_output_finalize task decisions observations = record {
  answer = answer_of (last observations);
  model_telemetry = none;
}
