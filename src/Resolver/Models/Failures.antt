-- ===== src/Resolver/Models/Failures.antt =====
-- How `resolve_model` fails: with a binding error, never with a missing key or an inconsistent preflight.
use infra_joint_planner.Prelude.{
  ℕ, ◌+◌, String, ◌≡◌, ◌≢◌, refl, ◌⊎◌, inl, inr, Bool, false, List, [], ◌∷◌, Option, none, some,
  arith, first, In, Bool-cases,
}
use mathlib.Core.Path.{subst}
use Prim.Native.String.{len}
use infra_joint_planner.Prelude.Text.{str_leb_total, str_leb_trans}
use infra_joint_planner.Prelude.Sorting.{IsOrder, sort_by, first-sort_by, first-sort_by_cons}
use infra_joint_planner.Prelude.Dict.{lookup}
use infra_joint_planner.Core.Errors.{
  Result, ok, err, Exception, ResolutionErrorCode, Message, binding_resolution_error, traverse,
  >>=-eq-ok,
}
use infra_joint_planner.Core.Json.{Json}
use infra_joint_planner.Core.Action.{PhysicalDecision, SemanticAction}
use infra_joint_planner.Core.State.{
  ArtifactRuntimeState, DeploymentSpec, EnvironmentSpec, InfrastructureState,
}
use infra_joint_planner.Resolver.{
  RequestError, artifacts_by_id, is_empty, estimate_inputs, artifact_estimate, context_error,
  prompt_of, then_estimate, model_request_error, bind_selected, raise_preflight, ranking,
  by_deployment_id, choose_deployment, resolve_model,
}
use infra_joint_planner.Resolver.Inputs.{KnowsInputs}
use infra_joint_planner.Resolver.Models.{checked, fits_of, fits}
use infra_joint_planner.Resolver.Models.Placement.{placed, check}

-- The exception is a binding error.
abbrev pub IsBindingError : Exception → Type 0
IsBindingError (binding_resolution_error code message) = Unit
IsBindingError _ = ⊥

-- The computation returns.
abbrev pub Returns : {A : Type 0} → Result A → Type 0
Returns {A} r = (a : A) × (r ≡ ok a)

module _ (deployment : DeploymentSpec) (state : InfrastructureState) where
  then_estimate-Returns :
      (e : ℕ ⊎ (ResolutionErrorCode × Message))
      (next : ℕ → Result (ℕ ⊎ (ResolutionErrorCode × Message)))
      → ((n : ℕ) → Returns (next n))
      → Returns (then_estimate e next)
  then_estimate-Returns (inl n) next h = h n
  then_estimate-Returns (inr e) next h = (inr e, refl)

  -- With every input known the estimate is computed.
  estimate_inputs-Returns :
      (inputs : List String) (estimated : ℕ)
      → KnowsInputs state inputs
      → Returns (estimate_inputs deployment (artifacts_by_id state) estimated inputs)
  unfolding estimate_inputs
  estimate_inputs-Returns [] estimated k = (inl estimated, refl)
  estimate_inputs-Returns (i ∷ inputs) estimated k =
      found (lookup i (artifacts_by_id state)) refl
        (λ n. estimate_inputs-Returns inputs (estimated + n) k.1)
    where
      found :
          (o : Option ArtifactRuntimeState)
          → lookup i (artifacts_by_id state) ≡ o
          → ((n : ℕ)
              → Returns (estimate_inputs deployment (artifacts_by_id state) (estimated + n) inputs))
          → Returns (estimate_inputs deployment (artifacts_by_id state) estimated (i ∷ inputs))
      found none e ih = absurd (cc (k.0))
      found (some a) e ih = rw e (then_estimate-Returns (artifact_estimate deployment i a) _ ih)

  pub model_request_error-Returns :
      (render : Json → String) (action : SemanticAction)
      → KnowsInputs state action.inputs
      → Returns (model_request_error render deployment action state)
  unfolding model_request_error
  model_request_error-Returns render action k =
      let (v, e) =
        estimate_inputs-Returns action.inputs (len (prompt_of render action.arguments)) k in
      (context_error deployment v, rw e)

pub traverse-Returns :
    {A B : Type 0} (f : A → Result B)
    → ((a : A) → Returns (f a))
    → (xs : List A) → Returns (traverse f xs)
unfolding traverse
traverse-Returns f h [] = ([], refl)
traverse-Returns f h (x ∷ xs) =
    let (y, e) = h x in let (ys, e') = traverse-Returns f h xs in (y ∷ ys, rw (e, e'))

traverse-nonempty :
    {A B : Type 0} (f : A → Result B) (xs : List A) (ys : List B)
    → traverse f xs ≡ ok ys
    → is_empty xs ≡ false
    → is_empty ys ≡ false
unfolding traverse
traverse-nonempty f [] ys t h = absurd (cc)
traverse-nonempty f (x ∷ xs) ys t h =
    let (y, e, t') = >>=-eq-ok (f x) _ t in
    let (rest, e', t'') = >>=-eq-ok (traverse f xs) _ t' in ground arith

none-first :
    {A : Type 0} (le : A → A → Bool) (xs : List A)
    → first (sort_by le xs) ≡ none
    → (a : A) → ¬ In a xs
none-first le [] h a m = m
none-first le (x ∷ xs) h a m = let (y, e) = first-sort_by_cons le x xs in absurd (cc)

pub err-injective : {A : Type 0} {a b : Exception} → ◌≡◌ {A = Result A} (err a) (err b) → a ≡ b
err-injective h = cc

id-IsOrder : IsOrder by_deployment_id
id-IsOrder = record {
  total = λ a b. str_leb_total a.0.deployment_id b.0.deployment_id;
  trans = λ a b c. str_leb_trans a.0.deployment_id b.0.deployment_id c.0.deployment_id;
}

-- With a candidate there the preflight is consistent: the choice is a binding, or the error of one
-- of the candidates.
choose_deployment_errors :
    (located : List (List String)) (pairs : List (DeploymentSpec × RequestError)) (e : Exception)
    → is_empty pairs ≡ false
    → choose_deployment located pairs ≡ err e
    → IsBindingError e
unfolding choose_deployment
choose_deployment_errors located [] e some_pair h = absurd (cc)
choose_deployment_errors located (q ∷ qs) e some_pair h =
    selected (first (sort_by (ranking located) (fits (q ∷ qs)))) refl h
  where
    leader :
        (p : DeploymentSpec × RequestError) × (first (sort_by by_deployment_id (q ∷ qs)) ≡ some p)
    leader = first-sort_by_cons by_deployment_id q qs

    no_fit :
        (d : DeploymentSpec)
        → first (sort_by (ranking located) (fits (q ∷ qs))) ≡ none
        → ¬ In (d, none) (q ∷ qs)
    no_fit d n m = none-first (ranking located) (fits (q ∷ qs)) n d (fits_of (q ∷ qs) d m)

    raised :
        (p : DeploymentSpec × RequestError)
        → ¬ In p (q ∷ qs) ⊎ (p.1 ≢ none)
        → In p (q ∷ qs)
        → raise_preflight (some p) ≡ err e
        → IsBindingError e
    raised (d, none) (inl absent) m k = absurd (absent m)
    raised (d, none) (inr some_error) m k = absurd (some_error refl)
    raised (d, some (code, message)) o m k = subst IsBindingError (err-injective k) tt

    of_leader :
        first (sort_by (ranking located) (fits (q ∷ qs))) ≡ none
        → (p : DeploymentSpec × RequestError) → first (sort_by by_deployment_id (q ∷ qs)) ≡ some p
        → raise_preflight (some p) ≡ err e
        → IsBindingError e
    of_leader n (d, none) f k =
        raised (d, none) (inl (no_fit d n))
          (first-sort_by by_deployment_id id-IsOrder (d, none) (q ∷ qs) f).0 k
    of_leader n (d, some x) f k =
        raised (d, some x) (inr (λ z. cc))
          (first-sort_by by_deployment_id id-IsOrder (d, some x) (q ∷ qs) f).0 k

    selected :
        (o : Option DeploymentSpec)
        → first (sort_by (ranking located) (fits (q ∷ qs))) ≡ o
        → bind_selected o (raise_preflight (first (sort_by by_deployment_id (q ∷ qs)))) ≡ err e
        → IsBindingError e
    selected none n k =
        let (p, f) = leader in of_leader n p f (subst (λ o. raise_preflight o ≡ err e) f k)
    selected (some d) n k = absurd (cc)

module _ (render : Json → String) (decision : PhysicalDecision) (action : SemanticAction)
    (feasible : List String) (located : List (List String)) (environment : EnvironmentSpec)
    (state : InfrastructureState) where
  abbrev candidates : List DeploymentSpec
  candidates = placed render decision action feasible located environment state

  abbrev preflights : Result (List (DeploymentSpec × RequestError))
  preflights =
      traverse (checked (check render decision action feasible located environment state))
        candidates

  pub resolve_model_errors :
      (e : Exception)
      → KnowsInputs state action.inputs
      → resolve_model render decision action feasible located environment state ≡ err e
      → IsBindingError e
  unfolding resolve_model
  resolve_model_errors e k h = elim (Bool-cases (is_empty candidates)) [
    | inl nothing ↦ subst IsBindingError (err-injective (rw nothing at h)) tt
    | inr something ↦
        let (pairs, t) = traverse-Returns _ one candidates in
        choose_deployment_errors located pairs e (traverse-nonempty _ candidates pairs t something)
          (rw (something, t) at h)
  ]
    where
      one :
          (d : DeploymentSpec)
          → Returns (checked (check render decision action feasible located environment state) d)
      one d = let (r, c) = model_request_error-Returns d state render action k in ((d, r), rw c)
