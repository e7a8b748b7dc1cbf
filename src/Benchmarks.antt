-- ===== src/Benchmarks.antt =====
-- benchmarks/base.py: what an adapter prepares, and how the validity of its setting is assessed.
use infra_joint_planner.Prelude.{
  String, Bool, true, false, ◌&&◌, List, [], ◌∷◌, ◌++◌, Option, all, eqb, length, ◌==◌,
  if◌then◌else◌,
}
use infra_joint_planner.Core.Errors.{Result, ok, ◌>>◌, require, words, validation_error}
use infra_joint_planner.Core.Json.{Fields}
use infra_joint_planner.Core.Task.{ArtifactSpec, TaskContract}
use infra_joint_planner.Model.{Bytes}

pub data BenchmarkSettingKind : Type 0 where
  official_equivalent derived : BenchmarkSettingKind

pub record TransformationRecord : Type 0 where
  pub benchmark_id : String
  pub source_revision : String
  pub source_task_id : String
  pub transformation : String
  pub information_preserved : Bool
  pub order_preserved : Option Bool
  pub gold_independent : Bool
  pub notes : String
  pub audit : Fields

pub record PreparedArtifact : Type 0 where
  pub spec : ArtifactSpec
  pub content : Bytes
  pub sha256_hex : String

-- `metadata_matches_content`
unfoldable pub check_prepared_artifact :
    (Bytes → String) → PreparedArtifact → Result PreparedArtifact
check_prepared_artifact sha256 p = do
  require (eqb p.spec.size_bytes (length p.content))
      (validation_error (words "prepared artifact size does not match content" ∷ []))
  require (p.sha256_hex == sha256 p.content)
      (validation_error (words "prepared artifact checksum does not match content" ∷ []))
  ok p

-- `PreparedArtifact.create`
unfoldable pub create_prepared_artifact :
    (Bytes → String) → ArtifactSpec → Bytes → Result PreparedArtifact
unfolding check_prepared_artifact
create_prepared_artifact sha256 spec content =
    check_prepared_artifact sha256
      (record { spec = spec; content = content; sha256_hex = sha256 content })

pub record ValidityAssessment : Type 0 where
  pub information_equivalent : Bool
  pub query_equivalent : Bool
  pub evaluator_equivalent : Bool
  pub setting_kind : BenchmarkSettingKind
  pub reasons : List String

abbrev pub same_kind : BenchmarkSettingKind → BenchmarkSettingKind → Bool
same_kind official_equivalent official_equivalent = true
same_kind derived derived = true
same_kind _ _ = false

abbrev kind_of : Bool → BenchmarkSettingKind
kind_of true = official_equivalent
kind_of false = derived

-- `kind_matches_evidence`
unfoldable pub check_validity : ValidityAssessment → Result ValidityAssessment
check_validity v = do
  require
      (same_kind v.setting_kind
        (kind_of (v.information_equivalent && (v.query_equivalent && v.evaluator_equivalent))))
      (validation_error (words "setting_kind does not match equivalence evidence" ∷ []))
  ok v

abbrev reason : Bool → String → List String
reason holds text = if holds then [] else text ∷ []

unfoldable pub assess_validity : List TransformationRecord → Bool → Bool → Result ValidityAssessment
unfolding check_validity
assess_validity transformations query_equivalent evaluator_equivalent =
    let information_equivalent =
      all (λ (r : TransformationRecord). r.information_preserved && r.gold_independent)
        transformations in
    check_validity (record {
      information_equivalent = information_equivalent;
      query_equivalent = query_equivalent;
      evaluator_equivalent = evaluator_equivalent;
      setting_kind = kind_of (information_equivalent && (query_equivalent && evaluator_equivalent));
      reasons =
          reason information_equivalent "one or more transformations are lossy or gold-dependent"
          ++ (reason query_equivalent "adapted query differs from the official query semantics"
              ++ reason evaluator_equivalent
                  "adapted evaluator differs from the official evaluator");
    })

pub record AdaptedExecutionCase : Type 0 where
  pub task : TaskContract
  pub transformations : List TransformationRecord
  pub validity : ValidityAssessment

pub record PrivateChoiceEvaluation : Type 0 where
  pub task_id : String
  pub evaluator_id : String
  pub gold_answer : String

pub record AdaptationBundle : Type 0 where
  pub execution : AdaptedExecutionCase
  pub private_evaluation : PrivateChoiceEvaluation
  pub prepared_artifacts : List PreparedArtifact
