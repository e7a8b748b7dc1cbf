-- ===== src/Store/Files.antt =====
-- worker/artifact_store.py: the store in files. The files are named by the hash of an identifier, so a
-- file system is one dictionary for each suffix. `T` is the type of the metadata's texts. A crash between two writes is not modelled.
use infra_joint_planner.Prelude.{
  String, ◌≡◌, refl, inl, inr, Bool, true, not, ◌&&◌, ◌||◌, List, [], ◌∷◌, Option, none, some, ◌==◌,
  if◌then◌else◌, arith, eq_iff, eq_refl, eqb, eqb_iff, length, Bool-cases,
}
use infra_joint_planner.Prelude.Text.{str_leb}
use infra_joint_planner.Prelude.Sorting.{sort_by}
use infra_joint_planner.Prelude.Dict.{Dict, lookup, insert, values, has_key, lookup-insert}
use infra_joint_planner.Prelude.{keep}
use mathlib.Core.Path.{subst}
use infra_joint_planner.Core.Errors.{
  words, name, Exception, Result, ok, err, ◌>>=◌, ◌>>◌, require, traverse, value_error,
  validation_error, artifact_not_found_error, artifact_corruption_error, >>=-eq-ok,
}
use infra_joint_planner.Core.Action.{nonempty}
use infra_joint_planner.Model.{Bytes}
use infra_joint_planner.Api.{ArtifactMetadata}
use infra_joint_planner.Store.{IsValid, StoredArtifact, same, same-eq, check_stored_artifact}
use infra_joint_planner.Store.Memory.{conflict}

pub record Root (T : Type 0) : Type 0 where
  pub blob : Dict Bytes
  pub metadata : Dict T
  pub blob_temp : Dict Bytes
  pub metadata_temp : Dict T

-- The metadata's JSON text, of type `T`, can be read back, `checksum` is the pattern of its `sha256_hex`, and
-- `file_key` the hash of an identifier that names the files.
pub record Codec (T : Type 0) : Type 0 where
  pub dump : ArtifactMetadata → T
  pub parse : T → Option ArtifactMetadata
  pub parse-dump : (m : ArtifactMetadata) → parse (dump m) ≡ some m
  pub checksum : String → Bool
  pub file_key : String → String

abbrev pub metadata_of : StoredArtifact → ArtifactMetadata
metadata_of a = record {
  artifact_id = a.artifact_id;
  media_type = a.media_type;
  size_bytes = length a.content;
  sha256_hex = a.sha256_hex;
}

abbrev pub artifact_of : ArtifactMetadata → Bytes → StoredArtifact
artifact_of m content = record {
  artifact_id = m.artifact_id;
  media_type = m.media_type;
  content = content;
  sha256_hex = m.sha256_hex;
}

module _ {T : Type 0} (sha256 : Bytes → String) (codec : Codec T) where
  -- The fields of `ArtifactMetadata`.
  unfoldable pub check_metadata : ArtifactMetadata → Result (Unit {0})
  check_metadata m = do
    require (nonempty m.artifact_id && nonempty m.media_type && codec.checksum m.sha256_hex)
        (validation_error (words "invalid artifact metadata" ∷ []))

  -- `_paths`
  unfoldable pub paths : String → Result String
  paths artifact_id = do
    require (nonempty artifact_id) (value_error (words "artifact_id must not be empty" ∷ []))
    ok (codec.file_key artifact_id)

  -- The tests of `get` on the metadata and the content that it has read.
  unfoldable pub read_checked : String → ArtifactMetadata → Bytes → Result StoredArtifact
  read_checked artifact_id m content = do
    require (m.artifact_id == artifact_id)
        (artifact_corruption_error (words "artifact ID mismatch: " ∷ name artifact_id ∷ []))
    require (eqb (length content) m.size_bytes && (sha256 content == m.sha256_hex))
        (artifact_corruption_error (words "artifact content mismatch: " ∷ name artifact_id ∷ []))
    check_stored_artifact sha256 (artifact_of m content)

  abbrev pub read_parsed : String → Option ArtifactMetadata → Bytes → Result StoredArtifact
  read_parsed artifact_id none content =
      err (
        artifact_corruption_error (words "invalid metadata for artifact: " ∷ name artifact_id ∷ []))
  read_parsed artifact_id (some m) content = read_checked artifact_id m content

  abbrev pub read : String → Option Bytes → Option T → Result StoredArtifact
  read artifact_id (some content) (some text) = read_parsed artifact_id (codec.parse text) content
  read artifact_id _ _ = err (artifact_not_found_error artifact_id)

  unfoldable pub get_file : String → Root T → Result StoredArtifact
  unfolding paths
  get_file artifact_id root = do
    key ← paths artifact_id
    read artifact_id (lookup key root.blob) (lookup key root.metadata)

  abbrev without : {V : Type 0} → String → Dict V → Dict V
  without key files = keep (λ e. not (e.0 == key)) files

  -- Both files are written beside their places, and then moved there.
  abbrev pub written : String → StoredArtifact → Root T → Root T
  written key artifact root =
      let text = codec.dump (metadata_of artifact) in
      let blob_written : Root T = record root {
        blob_temp = insert key artifact.content root.blob_temp;
      } in
      let both_written : Root T = record blob_written {
        metadata_temp = insert key text blob_written.metadata_temp;
      } in
      let blob_moved : Root T = record both_written {
        blob = insert key artifact.content both_written.blob;
        blob_temp = without key both_written.blob_temp;
      } in
      record blob_moved {
        metadata = insert key text blob_moved.metadata;
        metadata_temp = without key blob_moved.metadata_temp;
      }

  unfoldable pub write : String → StoredArtifact → Root T → Result (Root T)
  unfolding check_metadata
  write key artifact root = do check_metadata (metadata_of artifact); ok (written key artifact root)

  -- `put` where a file exists already.
  abbrev pub put_existing : Result StoredArtifact → StoredArtifact → Root T → Result (Root T)
  put_existing (ok existing) artifact root =
      if same existing artifact then ok root else conflict artifact.artifact_id
  put_existing (err (artifact_not_found_error _)) artifact root = err (
      artifact_corruption_error
        (words "partial artifact exists: " ∷ name artifact.artifact_id ∷ []))
  put_existing (err e) artifact root = err e

  unfoldable pub put_file : StoredArtifact → Root T → Result (Root T)
  unfolding paths
  put_file artifact root = do
    key ← paths artifact.artifact_id
    if has_key key root.blob || has_key key root.metadata
        then put_existing (get_file artifact.artifact_id root) artifact root
        else write key artifact root

  abbrev parsed : T → Result String
  parsed text = elim (codec.parse text) [
    | none ↦ err (artifact_corruption_error (words "invalid artifact metadata file: " ∷ []))
    | some m ↦ ok m.artifact_id
  ]

  -- `ids`: the identifiers of the metadata files, sorted.
  unfoldable pub file_ids : Root T → Result (List String)
  file_ids root = do
    artifact_ids ← traverse parsed (values root.metadata)
    ok (sort_by str_leb artifact_ids)

  valid_checksum :
      (a : StoredArtifact) → IsValid sha256 a → (a.sha256_hex == sha256 a.content) ≡ true
  unfolding check_stored_artifact
  valid_checksum a v = ground arith

  read_written :
      (a : StoredArtifact)
      → IsValid sha256 a
      → read_checked a.artifact_id (metadata_of a) a.content ≡ ok a
  unfolding read_checked
  read_written a v =
      let sum : (sha256 a.content == a.sha256_hex) ≡ true = ground (
        arith,
        valid_checksum a v,
        eq_iff a.sha256_hex (sha256 a.content),
        eq_iff (sha256 a.content) a.sha256_hex,
      ) in
      rw (eq_refl a.artifact_id, (eqb_iff (length a.content) (length a.content)).1 refl, sum) v

  written-get :
      (a : StoredArtifact) (root : Root T)
      → IsValid sha256 a
      → nonempty a.artifact_id ≡ true
      → get_file a.artifact_id (written (codec.file_key a.artifact_id) a root) ≡ ok a
  unfolding get_file paths
  written-get a root v n =
      let key = codec.file_key a.artifact_id in
      rw
        (
          n,
          lookup-insert key key a.content root.blob,
          lookup-insert key key (codec.dump (metadata_of a)) root.metadata,
          eq_refl key,
          codec.parse-dump (metadata_of a),
        )
        (read_written a v)

  valid_nonempty : (a : StoredArtifact) → IsValid sha256 a → nonempty a.artifact_id ≡ true
  unfolding check_stored_artifact
  valid_nonempty a v = ground arith

  pub write-written :
      (key : String) (a : StoredArtifact) (root root' : Root T)
      → write key a root ≡ ok root'
      → written key a root ≡ root'
  unfolding write
  write-written key a root root' h =
      let (u, e, f) = >>=-eq-ok (check_metadata (metadata_of a)) _ h in cc

  existing-get :
      (r : Result StoredArtifact) (a : StoredArtifact) (root root' : Root T)
      → get_file a.artifact_id root ≡ r
      → put_existing r a root ≡ ok root'
      → get_file a.artifact_id root' ≡ ok a
  existing-get (ok x) a root root' e h = elim (Bool-cases (same x a)) [
    | inl k ↦ let e' : root ≡ root' = ground arith in let e'' = same-eq x a k in cc
    | inr k ↦ absurd (ground arith)
  ]
  existing-get (err x) a root root' e h = absurd (refused x h)
    where
      refused : (x : Exception) → put_existing (err x) a root ≡ ok root' → ⊥
      refused (artifact_not_found_error i) k = cc
      refused _ k = cc

  -- What has been put into files is what is got back: the content, the media type and the checksum of
  -- an artifact that its constructor has accepted.
  pub put_file-get_file :
      (a : StoredArtifact) (root root' : Root T)
      → IsValid sha256 a
      → put_file a root ≡ ok root'
      → get_file a.artifact_id root' ≡ ok a
  unfolding put_file paths
  put_file-get_file a root root' v h =
      let key = codec.file_key a.artifact_id in
      let n = valid_nonempty a v in
      elim (Bool-cases (has_key key root.blob || has_key key root.metadata)) [
        | inl k ↦ existing-get (get_file a.artifact_id root) a root root' refl (rw (n, k) at h)
        | inr k ↦
            let e = write-written key a root root' (rw (n, k) at h) in
            subst (λ r. get_file a.artifact_id r ≡ ok a) e (written-get a root v n)
      ]
