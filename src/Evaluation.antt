-- ===== src/Evaluation.antt =====
-- evaluation/evaluator.py: results, and the strict choice evaluator.
use infra_joint_planner.Prelude.{String, Bool, false, ◌&&◌, List, Option, some, ◌==◌}
use infra_joint_planner.Prelude.Text.{elem}
use infra_joint_planner.Core.Task.{OutputFormat, choice, TaskContract}

-- The score of an exact evaluator is 0.0 or 1.0.
pub record EvaluationResult : Type 0 where
  pub format_valid : Bool
  pub benchmark_score : Bool
  pub details : String

unfoldable pub exact_choice :
    OutputFormat → Option (List String) → String → String → EvaluationResult
exact_choice choice (some choices) gold_answer answer =
    let format_valid = elem answer choices in
    record {
      format_valid = format_valid;
      benchmark_score = format_valid && (answer == gold_answer);
      details = "";
    }
exact_choice _ _ gold_answer answer = record {
  format_valid = false;
  benchmark_score = false;
  details = "task does not declare a choice output contract";
}

-- `ExactChoiceEvaluator.evaluate`
unfoldable pub evaluate : String → TaskContract → String → EvaluationResult
unfolding exact_choice
evaluate gold_answer task answer =
    exact_choice task.output_contract.format task.output_contract.choices gold_answer answer
