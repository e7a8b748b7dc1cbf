-- ===== src/Store/Interface.antt =====
-- worker/artifact_store.py: the protocol that both stores implement, and the contract on which the
-- worker relies: what a store returns stays as it is, and what was put is returned.
use infra_joint_planner.Prelude.{String, ◌≡◌, List}
use infra_joint_planner.Core.Errors.{Result, ok}
use infra_joint_planner.Model.{Bytes}
use infra_joint_planner.Store.{StoredArtifact, IsValid}

-- `ArtifactStore`, over the state `S` of a store.
pub record ArtifactStore (S : Type 0) : Type 0 where
  pub put : StoredArtifact → S → Result S
  pub get : String → S → Result StoredArtifact
  pub ids : S → Result (List String)

pub record IsLawful {S : Type 0} (sha256 : Bytes → String) (store : ArtifactStore S) : Type 0 where
  pub put-get :
      (a : StoredArtifact) (s s' : S)
      → IsValid sha256 a
      → store.put a s ≡ ok s'
      → store.get a.artifact_id s' ≡ ok a
  pub keeps :
      (a b : StoredArtifact) (i : String) (s s' : S)
      → store.get i s ≡ ok a
      → store.put b s ≡ ok s'
      → store.get i s' ≡ ok a
