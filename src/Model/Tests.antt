-- ===== src/Model/Tests.antt =====
-- Requests at which the two preflights and an OpenAI-compatible backend are run.
use infra_joint_planner.Prelude.{
  ℕ, ◌+◌, ◌≤◌, String, ◌≡◌, refl, sym, true, false, [], ◌∷◌, Option, none, some, length,
}
use infra_joint_planner.Prelude.Text.{elem}
use infra_joint_planner.Prelude.Dict.{lookup, insert, index_by}
use Prim.Native.String.{len}
use infra_joint_planner.Core.Errors.{Result, ok, traverse}
use infra_joint_planner.Core.Json.{Float, Json, str, end, field, get_field}
use infra_joint_planner.Core.Action.{SemanticAction}
use infra_joint_planner.Core.State.{ArtifactRuntimeState, DeploymentSpec, InfrastructureState}
use infra_joint_planner.Resolver.{
  artifacts_by_id, model_request_error, estimate_inputs, artifact_estimate,
}
use infra_joint_planner.Model.{
  Bytes, ModelArtifact, Decoder, preflight_model_request, is_text_media_type, ModelRequest,
  ModelCompletion, artifact_modality, completion_arguments, countable_text, content_part,
}
use infra_joint_planner.Model.Backends.{
  ChatCompletion, OpenAiCompatibleModelBackend, open_backend, completed, invoke, IsWithin, IsAnswer,
  invoke-IsAdmitted,
}
use infra_joint_planner.Model.Preflight.{Stocks, preflight-resolver}

-- A decoder that knows the empty text only.
abbrev decode_empty : Bytes → Option String
decode_empty [] = some ""
decode_empty (b ∷ bs) = none

decode_empty-length : (b : Bytes) (t : String) → decode_empty b ≡ some t → len t ≡ length b
decode_empty-length [] t h = let e : "" ≡ t = cc in rw (sym e) refl
decode_empty-length (b ∷ bs) t h = absurd (cc)

abbrev utf8 : Decoder
utf8 = record { decode = decode_empty; decode-length = decode_empty-length }

abbrev vlm : DeploymentSpec
vlm = record {
  deployment_id = "m";
  agent_id = "cloud";
  model_id = "vlm";
  modalities = "text" ∷ "image" ∷ [];
  context_window = 100;
  reserved_output_tokens = 20;
  image_token_cost = 50;
}

abbrev described : String → String → ℕ → ArtifactRuntimeState
described i media_type size = record {
  artifact_id = i;
  locations = "cloud" ∷ [];
  media_type = some media_type;
  size_bytes = some size;
  sha256_hex = none;
}

abbrev state : InfrastructureState
state = record {
  agents = [];
  deployments = [];
  artifacts = described "note" "text/plain" 0 ∷ described "photo" "image/png" 3 ∷ [];
  links = [];
  observed_at = record { instant = 0; utc_offset = some (false, 0) };
}

abbrev asks : SemanticAction
asks = record {
  operator = "ask";
  inputs = "photo" ∷ "note" ∷ [];
  arguments = field "prompt" (str "why") end;
}

abbrev photo : ModelArtifact
photo = record { artifact_id = "photo"; media_type = "image/png"; content = 1 ∷ 2 ∷ 3 ∷ [] }

abbrev note : ModelArtifact
note = record { artifact_id = "note"; media_type = "text/plain"; content = [] }

abbrev show : Json → String
show j = "?"

stocked : Stocks utf8 vlm (artifacts_by_id state) asks.inputs (photo ∷ note ∷ [])
unfolding index_by insert lookup is_text_media_type elem
stocked = (
  (
    described "photo" "image/png" 3,
    refl,
    record { media_type = refl; size = refl; readable = no_text },
  ),
  (
    (
      described "note" "text/plain" 0,
      refl,
      record { media_type = refl; size = refl; readable = λ h. ("", refl) },
    ),
    tt,
  ),
)
  where
    no_text :
        is_text_media_type "image/png" ≡ true
        → (t : String) × (decode_empty (1 ∷ 2 ∷ 3 ∷ []) ≡ some t)
    no_text h = absurd (cc)

admits : model_request_error show vlm asks state ≡ ok none
unfolding model_request_error estimate_inputs artifact_estimate get_field index_by insert lookup
    elem
admits = refl

prompted : get_field "prompt" asks.arguments ≡ some (str "why")
unfolding get_field
prompted = refl

speaks : elem "text" vlm.modalities ≡ true
unfolding elem
speaks = refl

preflight-resolver_example :
    (n : ℕ) × (preflight_model_request utf8
        (record { prompt = "why"; artifacts = photo ∷ note ∷ []; max_output_tokens = none })
        vlm.modalities
        vlm.context_window
        vlm.reserved_output_tokens
        vlm.image_token_cost
      ≡ ok n)
    × (n + 20 ≤ 100)
preflight-resolver_example =
    preflight-resolver utf8 vlm show asks state "why" (photo ∷ note ∷ []) none speaks prompted
      stocked admits

-- A service that answers every call in the same way.
abbrev reply : ChatCompletion
reply = record {
  choices = record { content = some "yes"; finish_reason = "stop" } ∷ [];
  usage = some (record { prompt_tokens = 6; completion_tokens = 1 });
}

abbrev create : Json → Result ChatCompletion
create arguments = ok reply

abbrev encoded : Bytes → String
encoded content = "?"

abbrev noted : ModelRequest
noted = record { prompt = "why"; artifacts = note ∷ []; max_output_tokens = some 8 }

abbrev backend : OpenAiCompatibleModelBackend
backend = record { model = "vlm"; max_input_tokens = some 9; token_counter = some len }

abbrev elapsed : Float
elapsed = record { bits = 15 }

abbrev answer : ModelCompletion
answer = record {
  text = "yes";
  telemetry = record {
    service_latency_ms = elapsed;
    input_tokens = some 6;
    output_tokens = some 1;
    finish_reason = some "stop";
  };
}

is_open : open_backend "vlm" (some 9) (some len) ≡ ok backend
unfolding open_backend
is_open = refl

invoked : invoke utf8 encoded create elapsed backend noted ≡ ok answer
unfolding invoke completed completion_arguments countable_text content_part artifact_modality
    is_text_media_type elem traverse
invoked = refl

invoke-IsAdmitted_example :
    IsWithin utf8 (some 9) (some len) noted
    × (arguments : Json) × (completion_arguments utf8 encoded "vlm" (some (len, 9)) noted
        ≡ ok arguments)
    × (given : ChatCompletion) × (create arguments ≡ ok given)
    × IsAnswer given answer
invoke-IsAdmitted_example =
    invoke-IsAdmitted utf8 encoded create elapsed "vlm" (some 9) (some len) backend noted answer
      is_open invoked
