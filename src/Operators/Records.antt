-- ===== src/Operators/Records.antt =====
-- operators/artifacts.py: JSON artifacts, and the records that the operators read from them. The JSON
-- codec and SHA-256 are parameters.
pub mod Roundtrip
use infra_joint_planner.Prelude.{
  ℕ, String, false, List, [], ◌∷◌, Option, none, some, length, if◌then◌else◌, map,
}
use infra_joint_planner.Prelude.Text.{elem}
use infra_joint_planner.Core.Errors.{Exception, Result, ok, err, words, name, value_error, or_raise}
use infra_joint_planner.Core.Json.{
  Json, null, bool, int, float, str, arr, obj, Items, nil, cons, Fields, end, field,
}
use infra_joint_planner.Model.{Bytes}
use infra_joint_planner.Store.{StoredArtifact, create}
use infra_joint_planner.Store.Interface.{ArtifactStore}
use infra_joint_planner.Effects.{Effect, pure, raise, lift, ◌>>=◌, ◌>>◌}
use infra_joint_planner.Worker.{Held, get_stored, put_stored}

-- What the operators need besides a store: `json.loads`, which may refuse its input, `json.dumps` with
-- sorted keys, and SHA-256.
pub record Codec : Type 0 where
  pub loads : Bytes → Option Json
  pub dumps : Json → Bytes
  pub sha256 : Bytes → String

pub record ProducedArtifact : Type 0 where
  pub artifact_id : String
  pub media_type : String
  pub size_bytes : ℕ
  pub sha256_hex : String

-- `model_dump`
abbrev pub dump_produced : ProducedArtifact → Json
dump_produced p = obj (
    field "artifact_id" (str p.artifact_id) (
      field "media_type" (str p.media_type)
        (field "size_bytes" (int false p.size_bytes) (field "sha256_hex" (str p.sha256_hex) end))))

abbrev pub told : StoredArtifact → ProducedArtifact
told artifact = record {
  artifact_id = artifact.artifact_id;
  media_type = artifact.media_type;
  size_bytes = length artifact.content;
  sha256_hex = artifact.sha256_hex;
}

-- An array of objects.
abbrev pub objects : Items → Option (List Fields)
objects nil = some []
objects (cons (obj record') items) = elim (objects items) [
  | none ↦ none
  | some records ↦ some (record' ∷ records)
]
objects (cons _ items) = none

abbrev pub records_of : Json → Option (List Fields)
records_of (arr items) = objects items
records_of _ = none

abbrev pub array_of : List Fields → Items
array_of [] = nil
array_of (record' ∷ records) = cons (obj record') (array_of records)

abbrev pub records_in : String → Json → Result (List Fields)
records_in artifact_id value =
    or_raise
      (value_error
        (words "artifact must contain a JSON array of objects: " ∷ name artifact_id ∷ []))
      (records_of value)

module _ (codec : Codec) where
  abbrev pub decoded_json : String → StoredArtifact → Result Json
  decoded_json artifact_id artifact =
      if elem artifact.media_type ("application/json" ∷ "application/jsonl" ∷ [])
      then or_raise (value_error (words "artifact contains invalid JSON: " ∷ name artifact_id ∷ []))
          (codec.loads artifact.content)
      else err (value_error (words "artifact is not JSON: " ∷ name artifact_id ∷ []))

  module _ {S W : Type 0} (store : ArtifactStore S) where
    unfoldable pub load_json : String → Effect (Held S W) Json
    load_json artifact_id = do
      artifact ← get_stored store artifact_id
      lift (decoded_json artifact_id artifact)

    unfoldable pub load_records : String → Effect (Held S W) (List Fields)
    unfolding load_json
    load_records artifact_id = do value ← load_json artifact_id; lift (records_in artifact_id value)

    unfoldable pub store_json : String → Json → Effect (Held S W) ProducedArtifact
    store_json artifact_id value = do
      artifact ← lift (create codec.sha256 artifact_id "application/json" (codec.dumps value))
      put_stored store artifact
      pure (told artifact)

    -- `store_json(...).model_dump()` of a list of records
    abbrev pub produce : String → List Fields → Effect (Held S W) Json
    produce artifact_id records = do
      produced ← store_json artifact_id (arr (array_of records))
      pure (dump_produced produced)
