-- ===== src/Core/Errors.antt =====
-- core/errors.py, the exception classes of the other modules, and results that may be exceptions.
-- A message is the list of the pieces that its f-string joins; how a piece is rendered is not modelled.
use infra_joint_planner.Prelude.{
  ℕ, String, ◌≡◌, refl, Bool, true, false, List, [], ◌∷◌, Option, none, some, leb, ◌&&◌, ◌==◌,
}

pub data Part : Type 0 where
  words : String → Part
  name : String → Part
  optional : Option String → Part
  names : List String → Part
  number : ℕ → Part

abbrev pub Message : Type 0
Message = List Part

-- Whether the text of a message is empty; a list and a number are rendered with a sign at least.
abbrev is_blank_part : Part → Bool
is_blank_part (words s) = s == ""
is_blank_part (name s) = s == ""
is_blank_part (optional (some s)) = s == ""
is_blank_part (optional none) = false
is_blank_part (names xs) = false
is_blank_part (number n) = false

abbrev pub is_blank : Message → Bool
is_blank [] = true
is_blank (p ∷ ps) = is_blank_part p && is_blank ps

pub data ExecutionErrorCode : Type 0 where
  artifact_too_large context_limit_exceeded deployment_required missing_artifact :
      ExecutionErrorCode
  model_service_error operator_failed surface_mismatch : ExecutionErrorCode
  unsupported_modality validation_failed : ExecutionErrorCode

pub data ResolutionErrorCode : Type 0 where
  infeasible_binding missing_input unsupported_modality context_limit_exceeded : ResolutionErrorCode

pub record FailureDetail : Type 0 where
  pub code : ExecutionErrorCode
  pub message : Message

-- What an HTTP error answer carries: a typed detail, or a text.
pub data HttpDetail : Type 0 where
  failure : FailureDetail → HttpDetail
  plain : Message → HttpDetail

pub data Exception : Type 0 where
  value_error runtime_error type_error key_error not_implemented_error : Message → Exception
  -- pydantic's ValidationError and json's JSONDecodeError, both of them a ValueError
  validation_error json_decode_error : Message → Exception
  artifact_not_found_error : String → Exception
  artifact_corruption_error artifact_conflict_error : Message → Exception
  typed_execution_error : ExecutionErrorCode → Message → Exception
  binding_resolution_error : ResolutionErrorCode → Message → Exception
  planner_decision_error operator_input_validation_error : Message → Exception
  media_execution_error : Message → Exception
  model_input_limit_error unsupported_model_artifact_error : Message → Exception
  http_exception : ℕ → HttpDetail → Exception
  -- langgraph's GraphRecursionError
  graph_recursion_error : Exception
  -- an exception of a class that the program does not name
  other_error : String → Exception

-- The status codes of HTTP that are errors.
abbrev pub is_error_status : ℕ → Bool
is_error_status status_code = leb 400 status_code && leb status_code 599

-- `except ValueError`, by the classes' bases
unfoldable pub is_value_error : Exception → Bool
is_value_error (value_error _) = true
is_value_error (validation_error _) = true
is_value_error (json_decode_error _) = true
is_value_error (artifact_conflict_error _) = true
is_value_error (planner_decision_error _) = true
is_value_error (operator_input_validation_error _) = true
is_value_error (model_input_limit_error _) = true
is_value_error (unsupported_model_artifact_error _) = true
is_value_error _ = false

-- `except KeyError`, by the classes' bases
unfoldable pub is_key_error : Exception → Bool
is_key_error (key_error _) = true
is_key_error (artifact_not_found_error _) = true
is_key_error _ = false

pub data Result {ℓ} (A : Type ℓ) : Type ℓ where
  ok : A → Result A
  err : Exception → Result A

module _ {ℓ κ} {A : Type ℓ} {B : Type κ} where
  infixl 5 ◌>>=◌ ◌>>◌
  -- A block stops at the first exception.
  abbrev pub ◌>>=◌ : Result A → (A → Result B) → Result B
  err e >>= next = err e
  ok a >>= next = next a

  abbrev pub ◌>>◌ : Result A → Result B → Result B
  earlier >> next = earlier >>= λ _. next

  -- What a block that returns has been through.
  pub >>=-eq-ok :
      (m : Result A) (next : A → Result B) {b : B}
      → (m >>= next) ≡ ok b
      → (a : A) × (m ≡ ok a) × (next a ≡ ok b)
  >>=-eq-ok (err e) next h = cc
  >>=-eq-ok (ok a) next h = (a, refl, h)

-- `if not b: raise e`
abbrev pub require : Bool → Exception → Result (Unit {0})
require true e = ok tt
require false e = err e

-- `[f(x) for x in xs]` where `f` may raise
unfoldable pub traverse {ℓ κ} :
    {A : Type ℓ} {B : Type κ} → (A → Result B) → List A → Result (List B)
traverse f [] = ok []
traverse f (x ∷ xs) = do y ← f x; ys ← traverse f xs; ok (y ∷ ys)

abbrev pub or_raise {ℓ} : {A : Type ℓ} → Exception → Option A → Result A
or_raise e none = err e
or_raise e (some a) = ok a
