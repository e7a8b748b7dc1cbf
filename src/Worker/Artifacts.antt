-- ===== src/Worker/Artifacts.antt =====
-- worker/server.py: the handlers that give, take and fetch an artifact. Which exceptions are httpx's is
-- a parameter.
use infra_joint_planner.Prelude.{
  String, Bool, true, [], ◌∷◌, Option, none, some, length, ◌==◌, ◌||◌, if◌then◌else◌,
}
use infra_joint_planner.Core.Errors.{
  Exception, Result, ok, err, Message, words, ExecutionErrorCode, plain, http_exception,
  artifact_not_found_error, is_value_error,
}
use infra_joint_planner.Core.Action.{truthy}
use infra_joint_planner.Model.{Bytes}
use infra_joint_planner.Store.{StoredArtifact, create}
use infra_joint_planner.Store.Interface.{ArtifactStore}
use infra_joint_planner.Effects.{Effect, pure, raise, lift, ◌>>=◌, ◌>>◌}
use infra_joint_planner.Api.{PullArtifactRequest, PullArtifactResponse}
use infra_joint_planner.Worker.{Held, failure_of, put_stored, in_world, media_type_of}

-- The answer with an artifact.
pub record ArtifactResponse : Type 0 where
  pub content : Bytes
  pub media_type : String
  pub x_artifact_sha256 : String

-- The request that brings an artifact, with its headers.
pub record PutRequest : Type 0 where
  pub body : Bytes
  pub content_type : Option String
  pub x_artifact_sha256 : Option String

pub record FetchedArtifact : Type 0 where
  pub content : Bytes
  pub media_type : String
  pub sha256_hex : Option String

abbrev pub ArtifactFetcher : Type 0 → Type 0
ArtifactFetcher W = String → Effect W FetchedArtifact

-- `expected is None or expected == sha256_hex`
abbrev pub matches : Option String → String → Bool
matches none sha256_hex = true
matches (some expected) sha256_hex = sha256_hex == expected

-- `first or second`, where the empty text is false
abbrev pub or_else : Option String → Option String → Option String
or_else first second = if truthy first then first else second

abbrev pub respond : StoredArtifact → PullArtifactResponse
respond a = record {
  artifact_id = a.artifact_id;
  size_bytes = length a.content;
  sha256_hex = a.sha256_hex;
}

abbrev found : Result StoredArtifact → Result StoredArtifact
found (err (artifact_not_found_error i)) =
    failure_of ExecutionErrorCode.missing_artifact (words "artifact not found" ∷ []) 404
found r = r

module _ (is_http_error : Exception → Bool) (str_of : Exception → Message) where
  abbrev pub fetched_or_gateway : Result FetchedArtifact → Result FetchedArtifact
  fetched_or_gateway (ok fetched) = ok fetched
  fetched_or_gateway (err e) =
      if is_value_error e || is_http_error e
      then err (http_exception 502 (plain (str_of e)))
      else err e

module _ {S W : Type 0} (store : ArtifactStore S) where
  -- `GET /artifact/{artifact_id}`
  unfoldable pub get_artifact : String → Effect (Held S W) ArtifactResponse
  get_artifact artifact_id = do
    artifact ← λ h. (found (store.get artifact_id h.store), h)
    pure (record {
      content = artifact.content;
      media_type = artifact.media_type;
      x_artifact_sha256 = artifact.sha256_hex;
    })

  -- The end that `put_artifact` and `pull_artifact` share.
  abbrev pub keep_checked : StoredArtifact → Option String → Effect (Held S W) PullArtifactResponse
  keep_checked artifact expected =
      if matches expected artifact.sha256_hex
      then (do put_stored store artifact; pure (respond artifact))
      else raise (http_exception 409 (plain (words "artifact checksum mismatch" ∷ [])))

  module _ (sha256 : Bytes → String) where
    -- `PUT /artifact/{artifact_id}`
    unfoldable pub put_artifact : String → PutRequest → Effect (Held S W) PullArtifactResponse
    put_artifact artifact_id request = do
      artifact ← lift (create sha256 artifact_id (media_type_of request.content_type) request.body)
      keep_checked artifact request.x_artifact_sha256

    module _ (is_http_error : Exception → Bool) (str_of : Exception → Message) where
      -- `POST /artifact/pull`
      unfoldable pub pull_artifact :
          Option (ArtifactFetcher W) → PullArtifactRequest → Effect (Held S W) PullArtifactResponse
      pull_artifact none request =
          raise (http_exception 501 (plain (words "artifact pulling is not configured" ∷ [])))
      pull_artifact (some fetch) request = do
        answer ← λ h.
            let (r, h') = in_world (fetch request.source_url) h in
            (fetched_or_gateway is_http_error str_of r, h')
        artifact ← lift (create sha256 request.artifact_id answer.media_type answer.content)
        keep_checked artifact (or_else request.expected_sha256 answer.sha256_hex)
