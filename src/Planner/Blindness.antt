-- ===== src/Planner/Blindness.antt =====
-- The prompts show the planner and the finalizer nothing but the logical state of a run.
use infra_joint_planner.Prelude.{ℕ, ◌≡◌, refl, List, [], ◌∷◌, map}
use infra_joint_planner.Core.Action.{JointDecision, action, finish}
use infra_joint_planner.Core.Task.{ArtifactSpec, TaskContract}
use infra_joint_planner.Registry.{OperatorRegistry}
use infra_joint_planner.Executor.{ExecutionResult}
use infra_joint_planner.Planner.{from_execution, BlindPlannerContext}
use infra_joint_planner.Planner.Prompts.{
  Dumps, artifact_payload, logical_task_payload, logical_decision_payload, planner_payload,
  render_planner_prompt, finalizer_payload, render_finalizer_prompt,
}

-- The same artifact, wherever it comes from.
pub record SameArtifact (a b : ArtifactSpec) : Type 0 where
  pub artifact_id : a.artifact_id ≡ b.artifact_id
  pub logical_type : a.logical_type ≡ b.logical_type
  pub media_type : a.media_type ≡ b.media_type
  pub size_bytes : a.size_bytes ≡ b.size_bytes

-- The same semantic action, wherever it runs, or the same reason to finish.
abbrev pub SameDecision : JointDecision → JointDecision → Type 0
SameDecision (action a) (action b) = a.semantic ≡ b.semantic
SameDecision (finish f) (finish g) = f.reason ≡ g.reason
SameDecision _ _ = ⊥

-- The same operator with the same output, wherever it ran and however long.
pub record SameObservation (a b : ExecutionResult) : Type 0 where
  pub operator : a.operator ≡ b.operator
  pub output : a.output ≡ b.output

module _ {A : Type 0} (R : A → A → Type 0) where
  abbrev pub Each : List A → List A → Type 0
  Each [] [] = Unit
  Each (x ∷ xs) (y ∷ ys) = R x y × Each xs ys
  Each _ _ = ⊥

  map-Each :
      {B : Type 0} (f : A → B)
      → ((x y : A) → R x y → f x ≡ f y)
      → (xs ys : List A) → Each xs ys
      → map f xs ≡ map f ys
  map-Each f h [] [] e = refl
  map-Each f h [] (y ∷ ys) e = absurd e
  map-Each f h (x ∷ xs) [] e = absurd e
  map-Each f h (x ∷ xs) (y ∷ ys) (r, e) = rw (h x y r, map-Each f h xs ys e) refl

-- The same task, but for the sources of its artifacts and its evaluator.
pub record SameTask (a b : TaskContract) : Type 0 where
  pub task_id : a.task_id ≡ b.task_id
  pub benchmark_id : a.benchmark_id ≡ b.benchmark_id
  pub objective : a.objective ≡ b.objective
  pub artifacts : Each SameArtifact a.artifacts b.artifacts
  pub output_contract : a.output_contract ≡ b.output_contract

module _ (dumps : Dumps) where
  artifact_payload-Same :
      (a b : ArtifactSpec) → SameArtifact a b → artifact_payload dumps a ≡ artifact_payload dumps b
  unfolding artifact_payload
  artifact_payload-Same a b s = rw (s.artifact_id, s.logical_type, s.media_type, s.size_bytes) refl

  decision_payload-Same :
      (a b : JointDecision)
      → SameDecision a b
      → logical_decision_payload dumps a ≡ logical_decision_payload dumps b
  unfolding logical_decision_payload
  decision_payload-Same (action a) (action b) s = rw s refl
  decision_payload-Same (finish f) (finish g) s = rw s refl
  decision_payload-Same (action a) (finish g) s = absurd s
  decision_payload-Same (finish f) (action b) s = absurd s

  task_payload-Same :
      (a b : TaskContract)
      → SameTask a b
      → logical_task_payload dumps a ≡ logical_task_payload dumps b
  unfolding logical_task_payload
  task_payload-Same a b s =
      let parts =
        map-Each SameArtifact (artifact_payload dumps) artifact_payload-Same a.artifacts b.artifacts
          s.artifacts in
      rw (s.task_id, s.benchmark_id, s.objective, parts, s.output_contract) refl

  from_execution-Same :
      (a b : ExecutionResult) → SameObservation a b → from_execution a ≡ from_execution b
  unfolding from_execution
  from_execution-Same a b s = rw (s.operator, s.output) refl

  -- What a planner sees of a run.
  abbrev pub seen :
      TaskContract → List JointDecision → List ExecutionResult → ℕ → BlindPlannerContext
  seen task decisions observations remaining = record {
    task = task;
    decisions = decisions;
    observations = map from_execution observations;
    remaining_steps = remaining;
  }

  -- Two runs that differ only in physical placement, in the sources of artifacts, in the evaluator and
  -- in measurements have the same planner prompt.
  pub render_planner_prompt-blind :
      {H : Type 0} (registry : OperatorRegistry H) (t t' : TaskContract)
      (ds ds' : List JointDecision) (os os' : List ExecutionResult) (remaining : ℕ)
      → SameTask t t'
      → Each SameDecision ds ds'
      → Each SameObservation os os'
      → render_planner_prompt dumps registry (seen t ds os remaining)
        ≡ render_planner_prompt dumps registry (seen t' ds' os' remaining)
  unfolding render_planner_prompt planner_payload
  render_planner_prompt-blind registry t t' ds ds' os os' remaining st sd so =
      rw
        (
          task_payload-Same t t' st,
          map-Each SameDecision (logical_decision_payload dumps) decision_payload-Same ds ds' sd,
          map-Each SameObservation from_execution from_execution-Same os os' so,
        )
        refl

  -- Two such runs have the same finalizer prompt.
  pub render_finalizer_prompt-blind :
      (t t' : TaskContract) (ds ds' : List JointDecision) (os os' : List ExecutionResult)
      → SameTask t t'
      → Each SameDecision ds ds'
      → Each SameObservation os os'
      → render_finalizer_prompt dumps t ds os ≡ render_finalizer_prompt dumps t' ds' os'
  unfolding render_finalizer_prompt finalizer_payload
  render_finalizer_prompt-blind t t' ds ds' os os' st sd so =
      rw
        (
          task_payload-Same t t' st,
          st.output_contract,
          map-Each SameDecision (logical_decision_payload dumps) decision_payload-Same ds ds' sd,
          map-Each SameObservation from_execution from_execution-Same os os' so,
        )
        refl
