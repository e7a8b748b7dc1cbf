-- ===== src/Worker/Failures.antt =====
-- worker/server.py: the exceptions that `execute` handles, and what it makes of them.
use infra_joint_planner.Prelude.{ℕ, String, ◌≡◌, refl, ◌⊎◌, inl, inr, Bool, true, false, Bool-cases}
use infra_joint_planner.Core.Errors.{
  Exception, Message, HttpDetail, is_value_error, is_error_status, value_error, is_blank,
  ExecutionErrorCode, runtime_error, type_error, key_error, not_implemented_error, validation_error,
  json_decode_error, artifact_not_found_error, artifact_corruption_error, artifact_conflict_error,
  typed_execution_error, binding_resolution_error, planner_decision_error,
  operator_input_validation_error, media_execution_error, model_input_limit_error,
  unsupported_model_artifact_error, http_exception, graph_recursion_error, other_error,
}
use infra_joint_planner.Effects.{OnlyRaises}
use infra_joint_planner.Worker.{empty_failure, failure_of}
use infra_joint_planner.Worker.Execute.{answered, model_failure}

-- What the clauses of `execute` turn into an HTTP error, or let through as one.
abbrev pub is_handled : Exception → Bool
is_handled (http_exception status_code _) = is_error_status status_code
is_handled (artifact_not_found_error _) = true
is_handled (media_execution_error _) = true
is_handled e = is_value_error e

abbrev pub IsHandled : Exception → Type 0
IsHandled e = is_handled e ≡ true

-- An error of HTTP, with its status, which is one of an error, and its detail.
abbrev pub IsHttp : Exception → Type 0
IsHttp e =
    (status_code : ℕ) × (detail : HttpDetail) × (e ≡ http_exception status_code detail)
    × (is_error_status status_code ≡ true)

-- A failure is handled, also one whose message is empty.
failure_of-IsHandled :
    (A : Type 0) (code : ExecutionErrorCode) (m : Message) (status_code : ℕ)
    → is_error_status status_code ≡ true
    → OnlyRaises IsHandled (failure_of {A = A} code m status_code)
unfolding failure_of is_value_error
failure_of-IsHandled A code m status_code h = elim (Bool-cases (is_blank m)) [
  | inl b ↦ rw (b, OnlyRaises) refl
  | inr b ↦ rw (b, OnlyRaises) h
]

pub model_failure-IsHandled :
    (A : Type 0) (str_of : Exception → Message) (class_name : Exception → String) (e : Exception)
    → OnlyRaises IsHandled (model_failure str_of class_name {A = A} e)
unfolding model_failure is_value_error failure_of
model_failure-IsHandled A str_of class_name (value_error m) = refl
model_failure-IsHandled A str_of class_name (runtime_error m) = refl
model_failure-IsHandled A str_of class_name (type_error m) = refl
model_failure-IsHandled A str_of class_name (key_error m) = refl
model_failure-IsHandled A str_of class_name (not_implemented_error m) = refl
model_failure-IsHandled A str_of class_name (validation_error m) = refl
model_failure-IsHandled A str_of class_name (json_decode_error m) = refl
model_failure-IsHandled A str_of class_name (artifact_not_found_error m) = refl
model_failure-IsHandled A str_of class_name (artifact_corruption_error m) = refl
model_failure-IsHandled A str_of class_name (artifact_conflict_error m) = refl
model_failure-IsHandled A str_of class_name (typed_execution_error c m) = refl
model_failure-IsHandled A str_of class_name (binding_resolution_error c m) = refl
model_failure-IsHandled A str_of class_name (planner_decision_error m) = refl
model_failure-IsHandled A str_of class_name (operator_input_validation_error m) = refl
model_failure-IsHandled A str_of class_name (media_execution_error m) = refl
model_failure-IsHandled A str_of class_name (model_input_limit_error m) =
    failure_of-IsHandled A ExecutionErrorCode.context_limit_exceeded
      (str_of (model_input_limit_error m)) 422 refl
model_failure-IsHandled A str_of class_name (unsupported_model_artifact_error m) =
    failure_of-IsHandled A ExecutionErrorCode.unsupported_modality
      (str_of (unsupported_model_artifact_error m)) 422 refl
model_failure-IsHandled A str_of class_name (http_exception c m) = refl
model_failure-IsHandled A str_of class_name graph_recursion_error = refl
model_failure-IsHandled A str_of class_name (other_error m) = refl

-- How `execute` answers to an exception: with an HTTP error; with the exception itself, of a class
-- that no clause is for; or with pydantic's exception for a message that is an empty text.
abbrev pub Answer : (str_of : Exception → Message) → Exception → Exception → Type 0
Answer str_of e e' =
    IsHttp e'
    ⊎ ((e' ≡ e) × (is_handled e ≡ false))
    ⊎ ((e' ≡ empty_failure) × (is_blank (str_of e) ≡ true))

told-Answer :
    (A : Type 0) (str_of : Exception → Message) (code : ExecutionErrorCode) (status_code : ℕ)
    (e : Exception)
    → is_error_status status_code ≡ true
    → OnlyRaises (Answer str_of e) (failure_of {A = A} code (str_of e) status_code)
unfolding failure_of
told-Answer A str_of code status_code e h = elim (Bool-cases (is_blank (str_of e))) [
  | inl b ↦ rw (b, OnlyRaises) (inr (inr (refl, b)))
  | inr b ↦ rw (b, OnlyRaises) (inl (_, _, refl, h))
]

pub answered-Answer :
    (A : Type 0) (str_of : Exception → Message) (e : Exception)
    → OnlyRaises (Answer str_of e) (answered str_of {A = A} e)
unfolding answered is_value_error
answered-Answer A str_of (value_error m) = told-Answer A str_of _ _ (value_error m) refl
answered-Answer A str_of (runtime_error m) = inr (inl (refl, refl))
answered-Answer A str_of (type_error m) = inr (inl (refl, refl))
answered-Answer A str_of (key_error m) = inr (inl (refl, refl))
answered-Answer A str_of (not_implemented_error m) = inr (inl (refl, refl))
answered-Answer A str_of (validation_error m) = told-Answer A str_of _ _ (validation_error m) refl
answered-Answer A str_of (json_decode_error m) = told-Answer A str_of _ _ (json_decode_error m) refl
answered-Answer A str_of (artifact_not_found_error m) = inl (_, _, refl, refl)
answered-Answer A str_of (artifact_corruption_error m) = inr (inl (refl, refl))
answered-Answer A str_of (artifact_conflict_error m) =
    told-Answer A str_of _ _ (artifact_conflict_error m) refl
answered-Answer A str_of (typed_execution_error c m) = inr (inl (refl, refl))
answered-Answer A str_of (binding_resolution_error c m) = inr (inl (refl, refl))
answered-Answer A str_of (planner_decision_error m) =
    told-Answer A str_of _ _ (planner_decision_error m) refl
answered-Answer A str_of (operator_input_validation_error m) =
    told-Answer A str_of _ _ (operator_input_validation_error m) refl
answered-Answer A str_of (media_execution_error m) =
    told-Answer A str_of _ _ (media_execution_error m) refl
answered-Answer A str_of (model_input_limit_error m) =
    told-Answer A str_of _ _ (model_input_limit_error m) refl
answered-Answer A str_of (unsupported_model_artifact_error m) =
    told-Answer A str_of _ _ (unsupported_model_artifact_error m) refl
answered-Answer A str_of (http_exception c m) = elim (Bool-cases (is_error_status c)) [
  | inl b ↦ inl (_, _, refl, b)
  | inr b ↦ inr (inl (refl, b))
]
answered-Answer A str_of graph_recursion_error = inr (inl (refl, refl))
answered-Answer A str_of (other_error m) = inr (inl (refl, refl))
