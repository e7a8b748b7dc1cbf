-- ===== src/Store/Instances.antt =====
-- worker/artifact_store.py: both stores keep the contract of the protocol.
use mathlib.Core.Path.{subst}
use infra_joint_planner.Prelude.{
  String, ◌≡◌, refl, sym, inl, inr, false, ◌||◌, none, ◌==◌, arith, eq_iff, Bool-cases,
  Option-cases,
}
use infra_joint_planner.Prelude.Dict.{lookup, has_key, lookup-insert}
use infra_joint_planner.Core.Errors.{Exception, Result, ok, err, artifact_not_found_error}
use infra_joint_planner.Core.Action.{nonempty}
use infra_joint_planner.Model.{Bytes}
use infra_joint_planner.Store.{StoredArtifact, same}
use infra_joint_planner.Store.Memory.{Artifacts, put, get, ids, put-get, put_over-keeps, get-lookup}
use infra_joint_planner.Store.Files.{
  Root, Codec, metadata_of, paths, get_file, written, write-written, put_existing, put_file,
  put_file-get_file, file_ids,
}
use infra_joint_planner.Store.Interface.{ArtifactStore, IsLawful}

-- `InMemoryArtifactStore`
abbrev pub memory : ArtifactStore Artifacts
memory = record { put = put; get = get; ids = λ s. ok (ids s) }

memory-keeps :
    (a b : StoredArtifact) (i : String) (s s' : Artifacts)
    → get i s ≡ ok a
    → put b s ≡ ok s'
    → get i s' ≡ ok a
unfolding put get
memory-keeps a b i s s' h p =
    rw (put_over-keeps (lookup b.artifact_id s) a b i s s' refl p (get-lookup i a s h)) refl

-- The store in memory returns what was put, and keeps what it holds.
pub memory-IsLawful : (sha256 : Bytes → String) → IsLawful sha256 memory
memory-IsLawful sha256 = record { put-get = λ a s s' v. put-get a s s'; keeps = memory-keeps }

module _ {T : Type 0} (sha256 : Bytes → String) (codec : Codec T) where
  -- `FileArtifactStore`
  abbrev pub files : ArtifactStore (Root T)
  files = record {
    put = put_file sha256 codec;
    get = get_file sha256 codec;
    ids = file_ids sha256 codec;
  }

  written-keeps :
      (a b : StoredArtifact) (i key : String) (root : Root T)
      → lookup key root.blob ≡ none
      → get_file sha256 codec i root ≡ ok a
      → get_file sha256 codec i (written sha256 codec key b root) ≡ ok a
  unfolding get_file paths
  written-keeps a b i key root free h = elim (Bool-cases (nonempty i)) [
    | inr empty ↦ absurd (refused (rw empty at h))
    | inl n ↦ elim (Bool-cases (key == codec.file_key i)) [
      | inl k ↦
          let e : key ≡ codec.file_key i = ground (arith, eq_iff key (codec.file_key i)) in
          absurd (missing (rw (n, sym e, free) at h))
      | inr k ↦
          rw
            (
              n,
              lookup-insert key (codec.file_key i) b.content root.blob,
              lookup-insert key (codec.file_key i) (codec.dump (metadata_of b)) root.metadata,
              k,
            )
            (rw n at h)
    ]
  ]
    where
      refused : {x : Exception} → ◌≡◌ {A = Result StoredArtifact} (err x) (ok a) → ⊥
      refused k = cc

      missing : {x : Exception} → ◌≡◌ {A = Result StoredArtifact} (err x) (ok a) → ⊥
      missing k = cc

  existing-keeps :
      (r : Result StoredArtifact) (b : StoredArtifact) (root root' : Root T)
      → put_existing sha256 codec r b root ≡ ok root'
      → root ≡ root'
  existing-keeps (ok x) b root root' h = elim (Bool-cases (same x b)) [
    | inl k ↦ ground arith
    | inr k ↦ absurd (ground arith)
  ]
  existing-keeps (err x) b root root' h = absurd (refused x h)
    where
      refused : (x : Exception) → put_existing sha256 codec (err x) b root ≡ ok root' → ⊥
      refused (artifact_not_found_error i) k = cc
      refused _ k = cc

  no_blob :
      (key : String) (root : Root T)
      → has_key key root.blob || has_key key root.metadata ≡ false
      → lookup key root.blob ≡ none
  no_blob key root h = elim (Option-cases (lookup key root.blob)) [
    | inl e ↦ e
    | inr (v, e) ↦ absurd (ground (arith, e))
  ]

  files-keeps :
      (a b : StoredArtifact) (i : String) (root root' : Root T)
      → get_file sha256 codec i root ≡ ok a
      → put_file sha256 codec b root ≡ ok root'
      → get_file sha256 codec i root' ≡ ok a
  unfolding put_file paths
  files-keeps a b i root root' h p = elim (Bool-cases (nonempty b.artifact_id)) [
    | inr empty ↦ absurd (refused (rw empty at p))
    | inl n ↦
        let key = codec.file_key b.artifact_id in
        elim (Bool-cases (has_key key root.blob || has_key key root.metadata)) [
          | inl k ↦
              subst (λ r. get_file sha256 codec i r ≡ ok a)
                (existing-keeps (get_file sha256 codec b.artifact_id root) b root root'
                  (rw (n, k) at p))
                h
          | inr k ↦
              subst (λ r. get_file sha256 codec i r ≡ ok a)
                (write-written sha256 codec key b root root' (rw (n, k) at p))
                (written-keeps a b i key root (no_blob key root k) h)
        ]
  ]
    where
      refused : {x : Exception} → ◌≡◌ {A = Result (Root T)} (err x) (ok root') → ⊥
      refused k = cc

  -- The store in files returns what was put, and keeps what it holds, also where the hashes of two
  -- identifiers are the same.
  pub files-IsLawful : IsLawful sha256 files
  files-IsLawful = record { put-get = put_file-get_file sha256 codec; keeps = files-keeps }
