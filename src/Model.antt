-- ===== src/Model.antt =====
-- worker/model_backend.py: model requests, their preflight, and what an OpenAI-compatible backend sends.
-- The UTF-8 decoder of Python's `bytes.decode`, base64 and a configured token counter are parameters.
pub mod Backends
pub mod Preflight
mod Tests
use Prim.Native.String.{len, ◌++◌ as str_append}
use text.Mathlib.Text.{starts_with}
use infra_joint_planner.Prelude.{
  ℕ, ◌+◌, ◌≡◌, length, String, Bool, true, false, not, ◌&&◌, ◌||◌, List, [], ◌∷◌, Option, none,
  some, map, ltb, leb, if◌then◌else◌, keep, ◌==◌,
}
use infra_joint_planner.Prelude.Text.{elem, str_leb}
use infra_joint_planner.Prelude.Sorting.{sort_by}
use infra_joint_planner.Core.Errors.{
  words, name, names, number, Message, Result, ok, err, ◌>>=◌, ◌>>◌, require, traverse, value_error,
  model_input_limit_error, unsupported_model_artifact_error,
}
use infra_joint_planner.Core.Json.{
  Float, Json, int, str, arr, obj, Items, nil, cons, Fields, end, field,
}
use infra_joint_planner.Core.State.{distinct}
use infra_joint_planner.Resolver.{is_empty}

abbrev pub Bytes : Type 0
Bytes = List ℕ

pub record ModelArtifact : Type 0 where
  pub artifact_id : String
  pub media_type : String
  pub content : Bytes

pub record ModelRequest : Type 0 where
  pub prompt : String
  pub artifacts : List ModelArtifact
  pub max_output_tokens : Option ℕ

pub record ModelCallTelemetry : Type 0 where
  pub service_latency_ms : Float
  pub input_tokens : Option ℕ
  pub output_tokens : Option ℕ
  pub finish_reason : Option String

pub record ModelCompletion : Type 0 where
  pub text : String
  pub telemetry : ModelCallTelemetry

-- A deployment, with its backend.
pub record ModelDeployment (B : Type 0) : Type 0 where
  pub deployment_id : String
  pub model_id : String
  pub backend : B
  pub modalities : List String
  pub context_window : ℕ
  pub reserved_output_tokens : ℕ
  pub image_token_cost : ℕ

-- `__post_init__`
unfoldable pub check_model_deployment :
    {B : Type 0} → ModelDeployment B → Result (ModelDeployment B)
check_model_deployment d = do
  require (not (d.deployment_id == "") && not (d.model_id == ""))
      (value_error (words "deployment_id and model_id must not be empty" ∷ []))
  require (elem "text" d.modalities)
      (value_error (words "every model deployment must support text prompts" ∷ []))
  require (not (ltb d.context_window 1 || ltb d.reserved_output_tokens 1))
      (value_error (words "context and output token limits must be positive" ∷ []))
  require (not (leb d.context_window d.reserved_output_tokens))
      (value_error (words "reserved output tokens must be smaller than context window" ∷ []))
  require (not (ltb d.image_token_cost 1))
      (value_error (words "image_token_cost must be positive" ∷ []))
  ok d

unfoldable pub is_text_media_type : String → Bool
is_text_media_type media_type =
    starts_with media_type "text/"
    || elem media_type ("application/json" ∷ "application/jsonl" ∷ "application/x-ndjson" ∷ [])

unfoldable pub artifact_modality : String → Result String
artifact_modality media_type =
    if is_text_media_type media_type
    then ok "text"
    else if starts_with media_type "image/"
    then ok "image"
    else err (
        unsupported_model_artifact_error (
          words "model artifacts support only text and image media types: " ∷ name media_type ∷ []))

-- `len(text.encode("utf-8"))`
abbrev pub conservative_text_tokens : String → ℕ
conservative_text_tokens text = len text

abbrev pub sum : List ℕ → ℕ
sum [] = 0
sum (x ∷ xs) = x + sum xs

-- Python's strict UTF-8 decoder. A text that it returns is the decoding of all the bytes, so it has
-- as many of them.
pub record Decoder : Type 0 where
  pub decode : Bytes → Option String
  pub decode-length : (b : Bytes) (t : String) → decode b ≡ some t → len t ≡ length b

module _ (utf8 : Decoder) where
  abbrev decoded : ModelArtifact → Option String → Result String
  decoded artifact (some text) = ok text
  decoded artifact none = err (
      unsupported_model_artifact_error
        (words "text artifact is not valid UTF-8: " ∷ name artifact.artifact_id ∷ []))

  unfoldable pub artifact_token_upper_bound : ModelArtifact → ℕ → Result ℕ
  artifact_token_upper_bound artifact image_token_cost = do
    modality ← artifact_modality artifact.media_type
    if modality == "image" then ok image_token_cost else do
      text ← decoded artifact (utf8.decode artifact.content)
      ok (conservative_text_tokens text)

  unfoldable pub preflight_model_request : ModelRequest → List String → ℕ → ℕ → ℕ → Result ℕ
  preflight_model_request request modalities context_window reserved_output_tokens
        image_token_cost =
      do
        required ←
            traverse (λ (item : ModelArtifact). artifact_modality item.media_type) request.artifacts
        require (elem "text" modalities) (
            unsupported_model_artifact_error
              (words "deployment does not support text prompts" ∷ []))
        let unsupported = keep (λ m. not (elem m modalities)) (distinct required)
        require (is_empty unsupported) (
            unsupported_model_artifact_error (
              words "deployment does not support required modalities: "
              ∷ names (sort_by str_leb unsupported)
              ∷ []))
        bounds ←
            traverse (λ item. artifact_token_upper_bound item image_token_cost) request.artifacts
        let estimated = conservative_text_tokens request.prompt + sum bounds
        require (not (ltb context_window (estimated + reserved_output_tokens))) (
            model_input_limit_error (
              words "context limit exceeded before request: estimated_input="
              ∷ number estimated
              ∷ words ", reserved_output="
              ∷ number reserved_output_tokens
              ∷ words ", context_window="
              ∷ number context_window
              ∷ []))
        ok estimated

  -- The tokens that the static backend reports for a request.
  unfoldable pub static_input_tokens : ModelRequest → Result ℕ
  static_input_tokens request = do
    bounds ← traverse (λ item. artifact_token_upper_bound item 4096) request.artifacts
    ok (conservative_text_tokens request.prompt + sum bounds)

  abbrev joined : List String → String
  joined [] = ""
  joined (s ∷ []) = s
  joined (s ∷ t ∷ r) = str_append s (str_append "\n" (joined (t ∷ r)))

  text_parts : List ModelArtifact → Result (List String)
  text_parts [] = ok []
  text_parts (artifact ∷ rest) =
      let others = text_parts rest in
      if is_text_media_type artifact.media_type
      then (do
        text ← decoded artifact (utf8.decode artifact.content)
        more ← others
        ok (text ∷ more))
      else others

  unfoldable pub countable_text : ModelRequest → Result String
  unfolding text_parts
  countable_text request = do
    parts ← text_parts request.artifacts
    ok (joined (request.prompt ∷ parts))

  module _ (base64 : Bytes → String) where
    unfoldable pub content_part : ModelArtifact → Result Json
    content_part artifact = do
      modality ← artifact_modality artifact.media_type
      if modality == "text"
          then (do
            text ← decoded artifact (utf8.decode artifact.content)
            ok (
                obj (
                  field "type" (str "text") (
                    field "text"
                      (str (
                        str_append "\n[Artifact "
                          (str_append artifact.artifact_id (str_append "]\n" text))))
                      end))))
          else ok (
              obj (
                field "type" (str "image_url") (
                  field "image_url"
                    (obj (
                      field "url"
                        (str (
                          str_append "data:" (
                            str_append artifact.media_type
                              (str_append ";base64," (base64 artifact.content)))))
                        end))
                    end)))

    abbrev items_of : List Json → Items
    items_of [] = nil
    items_of (x ∷ xs) = cons x (items_of xs)

    abbrev max_tokens : Option ℕ → Fields
    max_tokens none = end
    max_tokens (some n) = field "max_tokens" (int false n) end

    -- The limit on the configured counter's tokens, if both are configured.
    abbrev input_limit : Option ((String → ℕ) × ℕ) → ModelRequest → Result (Unit {0})
    input_limit none request = ok tt
    input_limit (some (token_counter, max_input_tokens)) request = do
      countable ← countable_text request
      require (not (ltb max_input_tokens (token_counter countable))) (
          model_input_limit_error (
            words "input has "
            ∷ number (token_counter countable)
            ∷ words " tokens; limit is "
            ∷ number max_input_tokens
            ∷ []))

    -- The arguments of the call that `OpenAICompatibleModelBackend.invoke` makes.
    unfoldable pub completion_arguments :
        String → Option ((String → ℕ) × ℕ) → ModelRequest → Result Json
    completion_arguments model limit request = do
      input_limit limit request
      parts ← traverse content_part request.artifacts
      let prompt = obj (field "type" (str "text") (field "text" (str request.prompt) end))
      ok (
          obj (
            field "model" (str model) (
              field "messages"
                (arr (
                  cons
                    (obj (
                      field "role" (str "user")
                        (field "content" (arr (items_of (prompt ∷ parts))) end)))
                    nil))
                (max_tokens request.max_output_tokens))))
