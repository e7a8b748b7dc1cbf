-- ===== src/Store.antt =====
-- worker/artifact_store.py: artifacts, and the stores that keep them, in memory and in files.
-- SHA-256, the JSON codec of the metadata and its test for a checksum are parameters.
pub mod Memory
pub mod Files
pub mod Interface
pub mod Instances
mod Tests
use mathlib.Core.Path.{subst}
use infra_joint_planner.Prelude.{
  ℕ, String, ◌≡◌, refl, Bool, true, false, not, ◌&&◌, ◌||◌, List, [], ◌∷◌, Option, none, some, ◌==◌,
  eqb, length, if◌then◌else◌, map, arith, eq_iff, eqb_iff, ap, sym,
}
use infra_joint_planner.Prelude.Text.{str_leb}
use infra_joint_planner.Prelude.Sorting.{sort_by}
use infra_joint_planner.Prelude.Dict.{Dict, lookup, insert, has_key, keys, values, index_by}
use infra_joint_planner.Core.Errors.{
  words, name, Exception, Result, ok, err, ◌>>=◌, ◌>>◌, require, traverse, value_error,
  validation_error, artifact_not_found_error, artifact_corruption_error, artifact_conflict_error,
}
use infra_joint_planner.Core.Action.{nonempty}
use infra_joint_planner.Model.{Bytes}
use infra_joint_planner.Api.{ArtifactMetadata}

pub record StoredArtifact : Type 0 where
  pub artifact_id : String
  pub media_type : String
  pub content : Bytes
  pub sha256_hex : String

abbrev pub same_bytes : Bytes → Bytes → Bool
same_bytes [] [] = true
same_bytes (a ∷ r) (b ∷ s) = eqb a b && same_bytes r s
same_bytes _ _ = false

-- `existing == artifact`
abbrev pub same : StoredArtifact → StoredArtifact → Bool
same a b =
    (a.artifact_id == b.artifact_id)
    && (a.media_type == b.media_type)
    && same_bytes a.content b.content
    && (a.sha256_hex == b.sha256_hex)

same_bytes-eq : (a b : Bytes) → same_bytes a b ≡ true → a ≡ b
same_bytes-eq [] [] h = refl
same_bytes-eq [] (y ∷ b) h = absurd (cc)
same_bytes-eq (x ∷ a) [] h = absurd (cc)
same_bytes-eq (x ∷ a) (y ∷ b) h =
    let e : x ≡ y = ground arith in let e' = same_bytes-eq a b (ground arith) in cc

pub same-eq : (a b : StoredArtifact) → same a b ≡ true → a ≡ b
same-eq a b h =
    let e : a.artifact_id ≡ b.artifact_id = ground (arith, eq_iff a.artifact_id b.artifact_id) in
    let e' : a.media_type ≡ b.media_type = ground (arith, eq_iff a.media_type b.media_type) in
    let e'' = same_bytes-eq a.content b.content (ground arith) in
    let e''' : a.sha256_hex ≡ b.sha256_hex = ground (arith, eq_iff a.sha256_hex b.sha256_hex) in cc

accepted :
    (x y : Bool) (e e' : Exception) (a b : StoredArtifact)
    → ◌≡◌ {A = Result StoredArtifact} (do require x e; require y e'; ok a) (ok b)
    → a ≡ b
accepted true true e e' a b h = cc
accepted true false e e' a b h = cc
accepted false y e e' a b h = cc

module _ (sha256 : Bytes → String) where
  -- `__post_init__`
  unfoldable pub check_stored_artifact : StoredArtifact → Result StoredArtifact
  check_stored_artifact a = do
    require (nonempty a.artifact_id && nonempty a.media_type)
        (value_error (words "artifact_id and media_type must not be empty" ∷ []))
    require (a.sha256_hex == sha256 a.content)
        (value_error (words "artifact checksum does not match content" ∷ []))
    ok a

  -- `StoredArtifact.create`
  unfoldable pub create : String → String → Bytes → Result StoredArtifact
  create artifact_id media_type content = check_stored_artifact (record {
    artifact_id = artifact_id;
    media_type = media_type;
    content = content;
    sha256_hex = sha256 content;
  })

  -- An artifact whose checksum and fields its constructor has accepted.
  abbrev pub IsValid : StoredArtifact → Type 0
  IsValid a = check_stored_artifact a ≡ ok a

  -- What `create` returns is valid, with the given identifier and content.
  pub created :
      (id media_type : String) (content : Bytes) (a : StoredArtifact)
      → create id media_type content ≡ ok a
      → IsValid a
        × (a.artifact_id ≡ id)
        × (a.content ≡ content)
        × (a.sha256_hex ≡ sha256 content)
        × (a.media_type ≡ media_type)
  unfolding create check_stored_artifact
  created id media_type content a h =
      let e =
        accepted (nonempty id && nonempty media_type) (sha256 content == sha256 content)
          (value_error (words "artifact_id and media_type must not be empty" ∷ []))
          (value_error (words "artifact checksum does not match content" ∷ [])) _ a h in
      (
        subst (λ x. check_stored_artifact x ≡ ok a) e h,
        sym (ap (λ x. x.artifact_id) e),
        sym (ap (λ x. x.content) e),
        sym (ap (λ x. x.sha256_hex) e),
        sym (ap (λ x. x.media_type) e),
      )
