-- ===== src/Model/Backends.antt =====
-- The backends of worker/model_backend.py: what configures them, and how they answer a request.
-- The chat-completion service is a parameter, from the call's arguments to its answer or exception,
-- and so is the time that the clock measures between them, which is not negative.
use mathlib.Core.Option.{map as option_map}
use infra_joint_planner.Prelude.{
  ℕ, ◌≤◌, String, ◌≡◌, refl, sym, ap, ◌∙◌, Bool, true, false, not, List, [], ◌∷◌, Option, none,
  some, ltb, arith, ◌==◌,
}
use infra_joint_planner.Core.Errors.{
  words, Result, ok, err, ◌>>=◌, ◌>>◌, require, >>=-eq-ok, value_error, runtime_error, other_error,
  validation_error,
}
use infra_joint_planner.Core.Json.{Float, Json}
use infra_joint_planner.Model.{
  Bytes, ModelRequest, ModelCompletion, Decoder, conservative_text_tokens, static_input_tokens,
  countable_text, input_limit, completion_arguments,
}

-- What the backend reads of the service's answer.
pub record Usage : Type 0 where
  pub prompt_tokens : ℕ
  pub completion_tokens : ℕ

pub record Choice : Type 0 where
  pub content : Option String
  pub finish_reason : String

pub record ChatCompletion : Type 0 where
  pub choices : List Choice
  pub usage : Option Usage

pub record OpenAiCompatibleModelBackend : Type 0 where
  pub model : String
  pub max_input_tokens : Option ℕ
  pub token_counter : Option (String → ℕ)

abbrev is_none {ℓ} : {A : Type ℓ} → Option A → Bool
is_none none = true
is_none (some _) = false

abbrev not_positive : Option ℕ → Bool
not_positive none = false
not_positive (some n) = ltb n 1

-- `a != b` on truth values
abbrev differ : Bool → Bool → Bool
differ true b = not b
differ false b = b

-- `OpenAICompatibleModelBackend.__init__`
unfoldable pub open_backend :
    String → Option ℕ → Option (String → ℕ) → Result OpenAiCompatibleModelBackend
open_backend model max_input_tokens token_counter = do
  require (not (model == "")) (value_error (words "model must not be empty" ∷ []))
  require (not (differ (is_none max_input_tokens) (is_none token_counter)))
      (value_error (words "max_input_tokens and token_counter must be configured together" ∷ []))
  require (not (not_positive max_input_tokens))
      (value_error (words "max_input_tokens must be positive" ∷ []))
  ok (record { model = model; max_input_tokens = max_input_tokens; token_counter = token_counter })

-- The counter and its limit, where both are set.
abbrev limit_of : Option ℕ → Option (String → ℕ) → Option ((String → ℕ) × ℕ)
limit_of none counter = none
limit_of (some n) none = none
limit_of (some n) (some f) = some (f, n)

-- `completion.choices[0]`
abbrev first_choice : List Choice → Result Choice
first_choice [] = err (other_error "IndexError")
first_choice (choice ∷ _) = ok choice

abbrev text_of : Option String → Result String
text_of none = err (runtime_error (words "model returned no text content" ∷ []))
text_of (some text) = ok text

-- The completion that an answer of the service is turned into.
unfoldable pub completed : Float → ChatCompletion → Result ModelCompletion
completed latency_ms completion = do
  choice ← first_choice completion.choices
  response_text ← text_of choice.content
  ok (record {
    text = response_text;
    telemetry = record {
      service_latency_ms = latency_ms;
      input_tokens = option_map (λ (u : Usage). u.prompt_tokens) completion.usage;
      output_tokens = option_map (λ (u : Usage). u.completion_tokens) completion.usage;
      finish_reason = some choice.finish_reason;
    };
  })

-- `StaticModelBackend.invoke`
unfoldable pub static_invoke : Decoder → Float → String → ModelRequest → Result ModelCompletion
static_invoke utf8 latency_ms response request = do
  input_tokens ← static_input_tokens utf8 request
  ok (record {
    text = response;
    telemetry = record {
      service_latency_ms = latency_ms;
      input_tokens = some input_tokens;
      output_tokens = some (conservative_text_tokens response);
      finish_reason = some "stop";
    };
  })

-- `complete`, which either backend defines in the same way
unfoldable pub complete : (ModelRequest → Result ModelCompletion) → String → Result String
complete invoke prompt = do
  require (not (prompt == "")) (validation_error (words "prompt is empty" ∷ []))
  completion ← invoke (record { prompt = prompt; artifacts = []; max_output_tokens = none })
  ok completion.text

-- The counted text of a request is within a configured limit, which is positive.
pub IsWithin : Decoder → Option ℕ → Option (String → ℕ) → ModelRequest → Type 0
IsWithin utf8 none _ request = Unit {0}
IsWithin utf8 (some n) none request = ⊥
IsWithin utf8 (some n) (some f) request =
    (t : String) × (countable_text utf8 request ≡ ok t) × (1 ≤ n) × (f t ≤ n)

-- The answer's first choice has the completion's text, and its usage the completion's tokens.
pub record IsAnswer (answer : ChatCompletion) (completion : ModelCompletion) : Type 0 where
  pub choice : Choice
  pub others : List Choice
  pub first : answer.choices ≡ choice ∷ others
  pub text : choice.content ≡ some completion.text
  pub input_tokens :
      completion.telemetry.input_tokens ≡ option_map (λ (u : Usage). u.prompt_tokens) answer.usage
  pub output_tokens :
      completion.telemetry.output_tokens
      ≡ option_map (λ (u : Usage). u.completion_tokens) answer.usage

module _ (utf8 : Decoder) (base64 : Bytes → String) (create : Json → Result ChatCompletion)
    (latency_ms : Float) where
  -- `OpenAICompatibleModelBackend.invoke`
  unfoldable pub invoke : OpenAiCompatibleModelBackend → ModelRequest → Result ModelCompletion
  invoke backend request = do
    arguments ←
        completion_arguments utf8 base64 backend.model
          (limit_of backend.max_input_tokens backend.token_counter) request
    completion ← create arguments
    completed latency_ms completion

  require-ok : (b : Bool) (e : _) {t : Unit {0}} → require b e ≡ ok t → b ≡ true
  require-ok true e h = refl
  require-ok false e h = absurd (cc)

  limit-IsWithin :
      (n : ℕ) (f : String → ℕ) (request : ModelRequest) {t : Unit {0}}
      → 1 ≤ n
      → input_limit utf8 base64 (some (f, n)) request ≡ ok t
      → IsWithin utf8 (some n) (some f) request
  unfolding IsWithin
  limit-IsWithin n f request positive h =
      let (countable, e, h') = >>=-eq-ok (countable_text utf8 request) _ h in
      let within = require-ok (not (ltb n (f countable))) _ h' in
      (countable, e, positive, ground arith)

  configured :
      (model : String) (max_input_tokens : Option ℕ) (token_counter : Option (String → ℕ))
      (backend : OpenAiCompatibleModelBackend) (request : ModelRequest) {t : Unit {0}}
      → open_backend model max_input_tokens token_counter ≡ ok backend
      → input_limit utf8 base64 (limit_of max_input_tokens token_counter) request ≡ ok t
      → IsWithin utf8 max_input_tokens token_counter request
  unfolding IsWithin open_backend
  configured model none token_counter backend request b h = tt
  configured model (some n) none backend request b h =
      let (_, _, h') = >>=-eq-ok (require (not (model == "")) _) _ b in absurd (cc)
  configured model (some n) (some f) backend request b h =
      let (_, _, h') = >>=-eq-ok (require (not (model == "")) _) _ b in
      let (_, positive, _) = >>=-eq-ok (require (not (ltb n 1)) _) _ h' in
      let at_least = require-ok (not (ltb n 1)) _ positive in
      limit-IsWithin n f request (ground arith) h

  ok-injective {ℓ} : {A : Type ℓ} → {a b : A} → ok a ≡ ok b → a ≡ b
  ok-injective h = cc

  admitted_limit :
      (limit : Option ((String → ℕ) × ℕ)) (model : String) (request : ModelRequest)
      {arguments : Json}
      → completion_arguments utf8 base64 model limit request ≡ ok arguments
      → input_limit utf8 base64 limit request ≡ ok tt
  unfolding completion_arguments
  admitted_limit limit model request h =
      let (tt, limited, _) = >>=-eq-ok (input_limit utf8 base64 limit request) _ h in limited

  first_choice-eq :
      (choices : List Choice) (choice : Choice)
      → first_choice choices ≡ ok choice
      → (others : List Choice) × (choices ≡ choice ∷ others)
  first_choice-eq [] choice h = absurd (cc)
  first_choice-eq (c ∷ others) choice h = (others, cc)

  text_of-eq : (o : Option String) (text : String) → text_of o ≡ ok text → o ≡ some text
  text_of-eq none text h = absurd (cc)
  text_of-eq (some t) text h = cc

  completed-IsAnswer :
      (answer : ChatCompletion) (completion : ModelCompletion)
      → completed latency_ms answer ≡ ok completion
      → IsAnswer answer completion
  unfolding completed
  completed-IsAnswer answer completion h =
      let (choice, e, h') = >>=-eq-ok (first_choice answer.choices) _ h in
      let (text, e', h'') = >>=-eq-ok (text_of choice.content) _ h' in
      let built = ok-injective h'' in
      let (others, first) = first_choice-eq answer.choices choice e in
      record {
        choice = choice;
        others = others;
        first = first;
        text = text_of-eq choice.content text e' ∙ ap (λ (c : ModelCompletion). some c.text) built;
        input_tokens = sym (ap (λ (c : ModelCompletion). c.telemetry.input_tokens) built);
        output_tokens = sym (ap (λ (c : ModelCompletion). c.telemetry.output_tokens) built);
      }

  opened :
      (model : String) (max_input_tokens : Option ℕ) (token_counter : Option (String → ℕ))
      (backend : OpenAiCompatibleModelBackend)
      → open_backend model max_input_tokens token_counter ≡ ok backend
      → record { model = model; max_input_tokens = max_input_tokens; token_counter = token_counter }
        ≡ backend
  unfolding open_backend
  opened model max_input_tokens token_counter backend b =
      let (_, _, h) = >>=-eq-ok (require (not (model == "")) _) _ b in
      let (_, _, h') =
        >>=-eq-ok (require (not (differ (is_none max_input_tokens) (is_none token_counter))) _) _
          h in
      let (_, _, h'') = >>=-eq-ok (require (not (not_positive max_input_tokens)) _) _ h' in
      ok-injective h''

  -- A backend that its configuration was accepted for, and that answers a request, has counted the
  -- request's text within the configured limit, if one is configured, and its completion is the first
  -- choice of the answer that the service gave to the call's arguments, with the tokens that it
  -- reports.
  pub invoke-IsAdmitted :
      (model : String) (max_input_tokens : Option ℕ) (token_counter : Option (String → ℕ))
      (backend : OpenAiCompatibleModelBackend) (request : ModelRequest)
      (completion : ModelCompletion)
      → open_backend model max_input_tokens token_counter ≡ ok backend
      → invoke backend request ≡ ok completion
      → IsWithin utf8 max_input_tokens token_counter request
        × (arguments : Json) × (completion_arguments utf8 base64 model
              (limit_of max_input_tokens token_counter)
              request
            ≡ ok arguments)
        × (answer : ChatCompletion) × (create arguments ≡ ok answer)
        × IsAnswer answer completion
  unfolding invoke
  invoke-IsAdmitted model max_input_tokens token_counter backend request completion b h =
      let is = opened model max_input_tokens token_counter backend b in
      let (arguments, sent, h1) = >>=-eq-ok _ _ (rw (sym is) at h) in
      let (answer, answered, h2) = >>=-eq-ok (create arguments) _ h1 in
      (
        configured model max_input_tokens token_counter backend request b
            (admitted_limit _ model request sent),
        arguments,
        sent,
        answer,
        answered,
        completed-IsAnswer answer completion h2,
      )
