-- ===== src/Worker/Answers.antt =====
-- worker/server.py: what `execute` answers, and the count of the requests in flight.
use mathlib.Core.Path.{subst}
use infra_joint_planner.Store.{StoredArtifact}
use infra_joint_planner.Prelude.{
  String, ◌≡◌, refl, sym, ◌⊎◌, inl, inr, true, false, [], ◌∷◌, Option, some, none, arith,
  Bool-cases, ◌==◌, ◌+◌, Option-cases, first, if◌then◌else◌,
}
use infra_joint_planner.Prelude.Dict.{Dict, lookup}
use infra_joint_planner.Core.Errors.{
  Exception, Message, Result, ok, err, ◌>>◌ as ◌then◌, is_value_error, is_key_error, type_error,
  words, is_blank,
}
use infra_joint_planner.Core.Json.{
  Json, Fields, obj, null, bool, int, float, str, arr, get_field, names_array,
}
use infra_joint_planner.Core.Action.{SemanticAction}
use infra_joint_planner.Model.{Decoder, ModelCompletion, ModelRequest, ModelDeployment}
use infra_joint_planner.Registry.{
  OperatorRegistry, OperatorBinding, Validator, binding, validate_action, validate_instance,
  or_default, string_array, any_object,
}
use infra_joint_planner.Store.Interface.{ArtifactStore}
use infra_joint_planner.Effects.{
  Effect, pure, lift, ◌>>=◌, ◌>>◌, continue, OnlyRaises, Throws, bind-Throws, for_each-Throws,
}
use infra_joint_planner.Api.{ExecuteOperatorRequest, ExecuteOperatorResponse}
use infra_joint_planner.Worker.{
  Server, Held, Handler, Backend, get_stored, in_world, failure_of, empty_failure,
}
use infra_joint_planner.Worker.Failures.{
  IsHandled, IsHttp, is_handled, Answer, model_failure-IsHandled, answered-Answer,
}
use infra_joint_planner.Worker.Execute.{
  invoke_model, dispatch, execute, attempt, bound, excepted, deployment_for, prompt_for, completed,
  answered, call_model, prompt_text, preflight, without_model, request_of, output_of, answer_with,
  counted,
}

module _ {S W : Type 0} (store : ArtifactStore S) (deployments : Dict (ModelDeployment (Backend W)))
    (utf8 : Decoder) (str_of : Exception → Message) (class_name : Exception → String)
    (registry : OperatorRegistry (Handler S W)) (iter_errors : Validator) where
  -- The store raised the exception, or the operator's handler did, or the handler did not return a
  -- dictionary.
  abbrev pub IsRaised : SemanticAction → Exception → Type 0
  IsRaised action e =
      ((i : String) × (s : S) × (store.get i s ≡ err e))
      ⊎ ((b : OperatorBinding (Handler S W)) × (h : Held S W) × (binding action.operator registry
            ≡ ok b)
          × ((b.handler action h).0 ≡ err e))
      ⊎ (e ≡ type_error (words "operator handler must return a dictionary" ∷ []))

  -- What is not handled comes from the store or from the handler.
  abbrev IsKnown : SemanticAction → Exception → Type 0
  IsKnown action e = is_handled e ≡ false → IsRaised action e

  handled-IsKnown :
      {A : Type 0} (action : SemanticAction) (r : Result A)
      → OnlyRaises IsHandled r
      → OnlyRaises (IsKnown action) r
  handled-IsKnown action (ok a) h = tt
  handled-IsKnown action (err e) h = λ n. absurd (cc)

  get_stored-Throws :
      (action : SemanticAction) (i : String)
      → Throws {W = Held S W} (IsKnown action) (get_stored store i)
  get_stored-Throws action i h = found (store.get i h.store) refl
    where
      found : (r : Result StoredArtifact) → store.get i h.store ≡ r → OnlyRaises (IsKnown action) r
      found (ok a) e = tt
      found (err x) e = λ n. inl (i, h.store, e)

  deployment_for-OnlyRaises :
      (d : Option String) → OnlyRaises IsHandled (deployment_for deployments d)
  unfolding failure_of
  deployment_for-OnlyRaises none = refl
  deployment_for-OnlyRaises (some i) = elim (Option-cases (lookup i deployments)) [
    | inl e ↦ rw (e, OnlyRaises) refl
    | inr (d, e) ↦ rw (e, OnlyRaises) tt
  ]

  prompt_for-OnlyRaises : (a : SemanticAction) → OnlyRaises IsHandled (prompt_for a)
  unfolding is_value_error
  prompt_for-OnlyRaises a = elim (Option-cases (prompt_text (get_field "prompt" a.arguments))) [
    | inl e ↦ rw (e, OnlyRaises) refl
    | inr (p, e) ↦ rw (e, OnlyRaises) tt
  ]

  completed-OnlyRaises :
      (r : Result ModelCompletion) → OnlyRaises IsHandled (completed str_of class_name r)
  completed-OnlyRaises (ok c) = tt
  completed-OnlyRaises (err e) = model_failure-IsHandled _ str_of class_name e

  call_model-Throws :
      (d : ModelDeployment (Backend W)) (r : ModelRequest)
      → Throws {W = Held S W} IsHandled (call_model store deployments utf8 str_of class_name d r)
  call_model-Throws d r h =
      completed-OnlyRaises ((do lift (preflight utf8 d r); in_world (d.backend r)) h).0

  invoke_model-Throws :
      (a : SemanticAction) (d : Option String)
      → Throws {W = Held S W}
          (IsKnown a)
          (invoke_model store deployments utf8 str_of class_name a d)
  unfolding invoke_model
  invoke_model-Throws a d =
      bind-Throws (IsKnown a) _ _
        (λ h. handled-IsKnown a (deployment_for deployments d) (deployment_for-OnlyRaises d))
        λ deployment.
          bind-Throws (IsKnown a) _ _
            (λ h. handled-IsKnown a (prompt_for a) (prompt_for-OnlyRaises a))
            λ prompt.
              bind-Throws (IsKnown a) _ _
                (for_each-Throws (IsKnown a) _ a.inputs (get_stored-Throws a))
                λ artifacts.
                  bind-Throws (IsKnown a)
                    (call_model store deployments utf8 str_of class_name deployment
                      (request_of deployment prompt artifacts))
                    (λ c. pure (answer_with c))
                    (λ h.
                      handled-IsKnown a _
                        (call_model-Throws deployment (request_of deployment prompt artifacts) h))
                    λ c h. tt

  not_dictionary :
      (action : SemanticAction)
      → IsKnown action (type_error (words "operator handler must return a dictionary" ∷ []))
  not_dictionary action n = inr (inr refl)

  output-OnlyRaises :
      (action : SemanticAction) (r : Result Json × Held S W)
      (next : Fields → Effect (Held S W) ExecuteOperatorResponse)
      → OnlyRaises (IsKnown action) r.0
      → ((o : Fields) → Throws (IsKnown action) (next o))
      → OnlyRaises (IsKnown action) (continue r (λ (j : Json). lift (output_of j) >>= next)).0
  output-OnlyRaises action (ok (obj o), h) next s k = k o h
  output-OnlyRaises action (ok null, h) next s k = not_dictionary action
  output-OnlyRaises action (ok (bool b), h) next s k = not_dictionary action
  output-OnlyRaises action (ok (int b n), h) next s k = not_dictionary action
  output-OnlyRaises action (ok (float f), h) next s k = not_dictionary action
  output-OnlyRaises action (ok (str f), h) next s k = not_dictionary action
  output-OnlyRaises action (ok (arr f), h) next s k = not_dictionary action
  output-OnlyRaises action (err e, h) next s k = s

  abbrev run : ExecuteOperatorRequest → Effect (Server S W) ExecuteOperatorResponse
  run = execute store deployments utf8 str_of class_name registry iter_errors

  counted_back :
      (request : ExecuteOperatorRequest) (server : Server S W)
      (r : Result (OperatorBinding (Handler S W)))
      → (continue
          (r, server)
          (λ b s.
            attempt store deployments utf8 str_of class_name registry iter_errors b.handler request
              (counted (λ n. n + 1) s))).1.in_flight
        ≡ server.in_flight
  counted_back request server (ok b) = omega arith
  counted_back request server (err e) = refl

  -- However a request ends, with an answer or with any exception, the count of the requests in
  -- flight is what it was before.
  pub execute-in_flight :
      (request : ExecuteOperatorRequest) (server : Server S W)
      → (run request server).1.in_flight ≡ server.in_flight
  unfolding execute
  execute-in_flight request server =
      counted_back request server (bound str_of (binding request.action.operator registry))

  validate_instance-OnlyRaises :
      (j : Json) (schema : Fields) (i f : String)
      → OnlyRaises IsHandled (validate_instance iter_errors j schema i f)
  unfolding validate_instance is_value_error
  validate_instance-OnlyRaises j schema i f = elim (Option-cases (first (iter_errors schema j))) [
    | inl e ↦ rw (e, OnlyRaises) tt
    | inr (x, e) ↦ rw (e, OnlyRaises) refl
  ]

  validated :
      (a : SemanticAction) (b : OperatorBinding (Handler S W))
      → binding a.operator registry ≡ ok b
      → OnlyRaises IsHandled (validate_action iter_errors a registry)
  unfolding validate_action
  validated a b e = rw e (
      both _ _
        (validate_instance-OnlyRaises (arr (names_array a.inputs))
          (or_default b.spec.input_schema string_array) a.operator "inputs")
        (validate_instance-OnlyRaises (obj a.arguments)
          (or_default b.spec.argument_schema any_object) a.operator "arguments"))
    where
      both :
          (r r' : Result (Unit {0}))
          → OnlyRaises IsHandled r
          → OnlyRaises IsHandled r'
          → OnlyRaises IsHandled (r then r')
      both (ok u) r' h k = k
      both (err e) r' h k = h

  handler-Throws :
      (a : SemanticAction) (b : OperatorBinding (Handler S W))
      → binding a.operator registry ≡ ok b
      → Throws (IsKnown a) (b.handler a)
  handler-Throws a b e h = found (b.handler a h).0 refl
    where
      found : (r : Result Json) → (b.handler a h).0 ≡ r → OnlyRaises (IsKnown a) r
      found (ok j) k = tt
      found (err x) k = λ n. inr (inl (b, h, e, k))

  without_model-Throws :
      (f : Handler S W) (a : SemanticAction) (d : Option String)
      → Throws (IsKnown a) (f a)
      → Throws (IsKnown a) (without_model f a d)
  unfolding failure_of
  without_model-Throws f a (some i) k h = λ n. absurd (cc)
  without_model-Throws f a none k h = output-OnlyRaises a (f a h) _ (k h) (λ o h'. tt)

  chosen-Throws :
      (request : ExecuteOperatorRequest) (b : OperatorBinding (Handler S W))
      → binding request.action.operator registry ≡ ok b
      → Throws
          (IsKnown request.action)
          (dispatch store deployments utf8 str_of class_name registry iter_errors b.handler request)
  unfolding dispatch
  chosen-Throws request b e =
      bind-Throws (IsKnown request.action) _ _
        (λ h. handled-IsKnown request.action _ (validated request.action b e))
        λ u. elim (Bool-cases (request.action.operator == "invoke_model")) [
          | inl m ↦ rw m (
              bind-Throws (IsKnown request.action) _ _
                (invoke_model-Throws request.action request.deployment_id) λ c h. tt)
          | inr m ↦ rw m (
              without_model-Throws b.handler request.action request.deployment_id
                (handler-Throws request.action b e))
        ]

  -- How an exception leaves: as an HTTP error; as it was raised, being of a class that no clause is
  -- for; or as pydantic's, for an exception whose text is empty.
  abbrev pub Leaving : SemanticAction → Exception → Type 0
  Leaving action e =
      IsHttp e
      ⊎ ((is_handled e ≡ false) × IsRaised action e)
      ⊎ ((e ≡ empty_failure) × ((x : Exception) × (is_blank (str_of x) ≡ true)))

  Answer-Leaving :
      (action : SemanticAction) (e e' : Exception)
      → IsKnown action e
      → Answer str_of e e'
      → Leaving action e'
  Answer-Leaving action e e' k (inl h) = inl h
  Answer-Leaving action e e' k (inr (inl (same, n))) = inr (
      inl
        (subst (λ x. is_handled x ≡ false) (sym same) n, subst (IsRaised action) (sym same) (k n)))
  Answer-Leaving action e e' k (inr (inr (same, n))) = inr (inr (same, (e, n)))

  excepted-OnlyRaises :
      (action : SemanticAction) (r : Result ExecuteOperatorResponse)
      → OnlyRaises (IsKnown action) r
      → OnlyRaises (Leaving action) (excepted str_of r)
  excepted-OnlyRaises action (ok a) k = tt
  excepted-OnlyRaises action (err e) k =
      each (answered str_of e) (answered-Answer ExecuteOperatorResponse str_of e)
    where
      each :
          (r : Result ExecuteOperatorResponse)
          → OnlyRaises (Answer str_of e) r
          → OnlyRaises (Leaving action) r
      each (ok a) h = tt
      each (err x) h = Answer-Leaving action e x k h

  bound-OnlyRaises :
      (action : SemanticAction) (i : String)
      → OnlyRaises (Leaving action) (bound str_of (binding i registry))
  unfolding binding is_key_error
  bound-OnlyRaises action i = elim (Option-cases (lookup i registry.bindings)) [
    | inl e ↦ rw (e, OnlyRaises) (inl (_, _, refl, refl))
    | inr (b, e) ↦ rw (e, OnlyRaises) tt
  ]

  run-OnlyRaises :
      (request : ExecuteOperatorRequest) (server : Server S W)
      (r : Result (OperatorBinding (Handler S W)))
      → binding request.action.operator registry ≡ r
      → OnlyRaises (Leaving request.action) (bound str_of r)
      → OnlyRaises
          (Leaving request.action)
          (continue
            (bound str_of r, server)
            (λ b s.
              attempt store deployments utf8 str_of class_name registry iter_errors b.handler
                request
                (counted (λ n. n + 1) s))).0
  run-OnlyRaises request server (ok b) e k =
      excepted-OnlyRaises request.action _ (chosen-Throws request b e server.held)
  run-OnlyRaises request server (err x) e k = elim (Bool-cases (is_key_error x)) [
    | inl b ↦ rw (b, OnlyRaises) (rw (b, OnlyRaises) at k)
    | inr b ↦ rw (b, OnlyRaises) (rw (b, OnlyRaises) at k)
  ]

  -- Each exception that leaves `execute` is an HTTP error with the status of an error, also where the
  -- operator is unknown, its arguments do not fit its schema, an artifact is missing, or the model's
  -- service has raised anything. There are two exceptions to this. One that the store or the
  -- operator's handler has raised, or that stands for a handler's answer that is no dictionary,
  -- leaves as it is if no clause is for its class; and where the text of an exception is empty, so that no
  -- failure can be made of it, pydantic's exception leaves.
  pub execute-IsHttp :
      (request : ExecuteOperatorRequest) (server : Server S W)
      → OnlyRaises (Leaving request.action) (run request server).0
  unfolding execute
  execute-IsHttp request server =
      run-OnlyRaises request server (binding request.action.operator registry) refl
        (bound-OnlyRaises request.action request.action.operator)
