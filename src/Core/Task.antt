-- ===== src/Core/Task.antt =====
-- core/task.py: what a benchmark hands over.
use infra_joint_planner.Prelude.{
  ℕ, String, Bool, true, false, not, ◌&&◌, List, ◌∷◌, Option, none, some, map, if◌then◌else◌,
}
use infra_joint_planner.Core.Errors.{Result, ok, ◌>>◌, require}
use infra_joint_planner.Core.Json.{Fields}
use infra_joint_planner.Core.Action.{nonempty}
use infra_joint_planner.Core.State.{is_unique, invalid}

pub data OutputFormat : Type 0 where
  choice short_text json structured : OutputFormat

pub record OutputContract : Type 0 where
  pub format : OutputFormat
  pub schema_definition : Option Fields
  pub choices : Option (List String)

abbrev is_choice : OutputFormat → Bool
is_choice choice = true
is_choice _ = false

abbrev is_structured : OutputFormat → Bool
is_structured json = true
is_structured structured = true
is_structured _ = false

abbrev is_some : {A : Type 0} → Option A → Bool
is_some none = false
is_some (some _) = true

-- `bool(choices)`: None and the empty tuple are false.
abbrev has_choices : Option (List String) → Bool
has_choices (some (c ∷ cs)) = true
has_choices _ = false

unfoldable pub validate_format_details : OutputContract → Result OutputContract
validate_format_details c = do
  require (not (is_choice c.format && not (has_choices c.choices)))
      (invalid "choice output requires non-empty choices")
  require (not (not (is_choice c.format) && is_some c.choices))
      (invalid "choices are only valid for choice output")
  (if is_structured c.format
      then require (is_some c.schema_definition) (invalid "structured output requires a schema")
      else require (not (is_some c.schema_definition))
          (invalid "schema is only valid for json or structured output"))
  ok c

pub record ArtifactSpec : Type 0 where
  pub artifact_id : String
  pub logical_type : String
  pub media_type : String
  pub size_bytes : ℕ
  pub source_ref : Option String

pub record TaskContract : Type 0 where
  pub task_id : String
  pub benchmark_id : String
  pub objective : String
  pub artifacts : List ArtifactSpec
  pub output_contract : OutputContract
  pub evaluator_id : String

unfoldable pub artifact_ids_are_unique : List ArtifactSpec → Result (List ArtifactSpec)
artifact_ids_are_unique artifacts = do
  require (is_unique (map (λ (a : ArtifactSpec). a.artifact_id) artifacts))
      (invalid "artifact_id values must be unique")
  ok artifacts

unfoldable pub check_task : TaskContract → Result TaskContract
unfolding artifact_ids_are_unique
check_task t = do
  require
      (nonempty t.task_id
        && nonempty t.benchmark_id
        && nonempty t.objective
        && nonempty t.evaluator_id)
      (invalid "an identifier is empty")
  artifact_ids_are_unique t.artifacts
  ok t
