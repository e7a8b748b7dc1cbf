-- ===== src/Worker.antt =====
-- worker/server.py: the state of a worker, and what its handlers share. A handler acts on the store and
-- on the world behind it, where the model services, the other workers and the media tools are. How an
-- exception is rendered as a text is a parameter.
pub mod Artifacts
pub mod Execute
pub mod Transfers
pub mod Calls
pub mod Failures
pub mod Answers
mod Tests
use Prim.Native.Char.{code}
use infra_joint_planner.Prelude.{
  ℕ, String, Bool, true, false, List, [], ◌∷◌, Option, none, some, leb, eqb, map, length, ◌==◌,
  if◌then◌else◌,
}
use infra_joint_planner.Prelude.Text.{str_leb}
use infra_joint_planner.Prelude.Dict.{Dict, values}
use infra_joint_planner.Prelude.Sorting.{sort_by}
use infra_joint_planner.Core.Errors.{
  Exception, Result, ok, err, Message, words, number, ExecutionErrorCode, FailureDetail, failure,
  http_exception, value_error, runtime_error, validation_error, is_blank,
}
use infra_joint_planner.Core.Json.{Json, str, obj, end, field}
use infra_joint_planner.Core.Action.{SemanticAction}
use infra_joint_planner.Model.{Bytes, Decoder, ModelRequest, ModelCompletion, ModelDeployment}
use infra_joint_planner.Registry.{OperatorRegistry, operator_ids}
use infra_joint_planner.Store.{StoredArtifact}
use infra_joint_planner.Store.Interface.{ArtifactStore}
use infra_joint_planner.Effects.{Effect, pure, raise, lift, ◌>>=◌, ◌>>◌, for_each}
use infra_joint_planner.Api.{ArtifactMetadata, WorkerDeploymentState, WorkerStateResponse}

pub record Held (S W : Type 0) : Type 0 where
  pub store : S
  pub world : W

pub record Server (S W : Type 0) : Type 0 where
  pub in_flight : ℕ
  pub held : Held S W

abbrev pub Handler : Type 0 → Type 0 → Type 0
Handler S W = SemanticAction → Effect (Held S W) Json

-- `ModelBackend.invoke`
abbrev pub Backend : Type 0 → Type 0
Backend W = ModelRequest → Effect W ModelCompletion

-- pydantic's refusal of a `FailureDetail` with an empty message
abbrev pub empty_failure : Exception
empty_failure = validation_error (words "FailureDetail.message is empty" ∷ [])

-- `_failure`
unfoldable pub failure_of : {A : Type 0} → ExecutionErrorCode → Message → ℕ → Result A
failure_of code message status_code =
    if is_blank message
    then err empty_failure
    else err (http_exception status_code (failure (record { code = code; message = message })))

-- `text.split(";", maxsplit=1)[0]`
unfoldable pub before_semicolon : String → String
before_semicolon String.[] = String.[]
before_semicolon (String.◌∷◌ c s) =
    let rest = before_semicolon s in if eqb (code c) 59 then String.[] else String.◌∷◌ c rest

-- A header's value, or the default.
abbrev pub header_or : String → Option String → String
header_or default none = default
header_or default (some value) = value

-- The media type of a request or of an answer.
abbrev pub media_type_of : Option String → String
media_type_of content_type = before_semicolon (header_or "application/octet-stream" content_type)

abbrev pub text_output : Option String → Result Json
text_output none = err (value_error (words "read_artifact supports only UTF-8 text" ∷ []))
text_output (some text) = ok (obj (field "text" (str text) end))

module _ (utf8 : Decoder) (max_read_artifact_bytes : ℕ) where
  abbrev pub small_text : StoredArtifact → Result Json
  small_text artifact =
      if leb (length artifact.content) max_read_artifact_bytes
      then text_output (utf8.decode artifact.content)
      else failure_of ExecutionErrorCode.artifact_too_large
          (words "artifact has "
            ∷ number (length artifact.content)
            ∷ words " bytes; read limit is "
            ∷ number max_read_artifact_bytes
            ∷ [])
          413

abbrev deployment_state : {B : Type 0} → ModelDeployment B → WorkerDeploymentState
deployment_state item = record {
  deployment_id = item.deployment_id;
  model_id = item.model_id;
  modalities = item.modalities;
  context_window = item.context_window;
  reserved_output_tokens = item.reserved_output_tokens;
  image_token_cost = item.image_token_cost;
}

module _ {S W : Type 0} where
  -- A computation on the world alone.
  abbrev pub in_world : {A : Type 0} → Effect W A → Effect (Held S W) A
  in_world m h = let (r, w) = m h.world in (r, record { store = h.store; world = w })

  module _ (store : ArtifactStore S) where
    abbrev pub get_stored : String → Effect (Held S W) StoredArtifact
    get_stored artifact_id h = (store.get artifact_id h.store, h)

    abbrev pub stored : Result S → Effect (Held S W) (Unit {0})
    stored (ok s) h = (ok tt, record { store = s; world = h.world })
    stored (err e) h = (err e, h)

    abbrev pub put_stored : StoredArtifact → Effect (Held S W) (Unit {0})
    put_stored artifact h = stored (store.put artifact h.store) h

    -- `_artifact_metadata`
    unfoldable pub artifact_metadata : Effect (Held S W) (List ArtifactMetadata)
    artifact_metadata = do
      ids ← λ h. (store.ids h.store, h)
      for_each
          (λ artifact_id. do
            artifact ← get_stored artifact_id
            pure (record {
              artifact_id = artifact.artifact_id;
              media_type = artifact.media_type;
              size_bytes = length artifact.content;
              sha256_hex = artifact.sha256_hex;
            }))
          ids

    module _ (utf8 : Decoder) (max_read_artifact_bytes : ℕ) where
      abbrev pub read_inputs : List String → Effect (Held S W) Json
      read_inputs (input ∷ []) = do
        artifact ← get_stored input
        lift (small_text utf8 max_read_artifact_bytes artifact)
      read_inputs _ = raise (value_error (words "read_artifact requires exactly one input" ∷ []))

      unfoldable pub read_artifact : Handler S W
      unfolding failure_of
      read_artifact action = read_inputs action.inputs

    unfoldable pub model_marker : Handler S W
    model_marker action =
        raise (runtime_error (words "invoke_model is dispatched through its deployment" ∷ []))

    -- `GET /state`
    unfoldable pub state :
        {H B : Type 0}
        → String
        → OperatorRegistry H
        → Dict (ModelDeployment B)
        → Server S W
        → Result WorkerStateResponse × Held S W
    unfolding artifact_metadata
    state {B} agent_id registry deployments server =
        (do
          artifacts ← artifact_metadata
          pure (record {
            agent_id = agent_id;
            available = true;
            in_flight = server.in_flight;
            operators = sort_by str_leb (operator_ids registry);
            deployments = map deployment_state (
                sort_by (λ (a b : ModelDeployment B). str_leb a.deployment_id b.deployment_id)
                  (values deployments));
            artifacts = artifacts;
          }))
          server.held
