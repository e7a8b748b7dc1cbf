-- ===== src/Operators/Records/Roundtrip.antt =====
-- operators/artifacts.py: what `store_json` has stored, `load_records` reads.
use infra_joint_planner.Prelude.{String, ◌≡◌, refl, List, [], ◌∷◌, some}
use infra_joint_planner.Prelude.Text.{elem}
use mathlib.Core.Path.{subst}
use infra_joint_planner.Core.Errors.{Result, ok, err}
use infra_joint_planner.Core.Json.{Json, arr, Fields}
use infra_joint_planner.Model.{Bytes}
use infra_joint_planner.Store.{StoredArtifact, create, created, IsValid}
use infra_joint_planner.Store.Interface.{ArtifactStore, IsLawful}
use infra_joint_planner.Effects.{pure, ◌>>◌, continue}
use infra_joint_planner.Worker.{Held, stored, put_stored}
use infra_joint_planner.Operators.Records.{
  Codec, ProducedArtifact, objects, array_of, told, load_json, load_records, store_json,
}

objects-array_of : (records : List Fields) → objects (array_of records) ≡ some records
objects-array_of [] = refl
objects-array_of (r ∷ records) = rw (objects-array_of records) refl

module _ {S W : Type 0} (codec : Codec) (store : ArtifactStore S)
    (lawful : IsLawful codec.sha256 store) where
  -- Either the store behind returns the content as JSON, or an exception has left it as it was.
  abbrev pub StoredJson : S → String → Bytes → Result ProducedArtifact × Held S W → Type 0
  StoredJson s artifact_id content (ok p, h) =
      (a : StoredArtifact) × (store.get artifact_id h.store ≡ ok a)
      × (a.content ≡ content)
      × (a.media_type ≡ "application/json")
  StoredJson s artifact_id content (err e, h) = h.store ≡ s

  put-StoredJson :
      (a : StoredArtifact) (p : ProducedArtifact) (r : Result S) (h : Held S W)
      → IsValid codec.sha256 a
      → store.put a h.store ≡ r
      → a.media_type ≡ "application/json"
      → StoredJson h.store a.artifact_id a.content (continue (stored store r h) (λ u. pure p))
  put-StoredJson a p (ok s) h v e m = (a, lawful.put-get a h.store s v e, refl, m)
  put-StoredJson a p (err x) h v e m = refl

  created-StoredJson :
      (artifact_id : String) (content : Bytes) (r : Result StoredArtifact) (h : Held S W)
      → create codec.sha256 artifact_id "application/json" content ≡ r
      → StoredJson h.store artifact_id content
          (continue (r, h) λ artifact. do put_stored store artifact; pure (told artifact))
  created-StoredJson artifact_id content (err e) h c = refl
  created-StoredJson artifact_id content (ok a) h c =
      let (v, i, k, s, m) = created codec.sha256 artifact_id "application/json" content a c in
      subst
        (λ x.
          StoredJson h.store x content
            (continue (stored store (store.put a h.store) h) (λ u. pure (told a))))
        i
        (subst
          (λ x.
            StoredJson h.store a.artifact_id x
              (continue (stored store (store.put a h.store) h) (λ u. pure (told a))))
          k (put-StoredJson a (told a) (store.put a h.store) h v refl m))

  pub store_json-StoredJson :
      (artifact_id : String) (value : Json) (h : Held S W)
      → StoredJson h.store artifact_id
          (codec.dumps value)
          (store_json codec store artifact_id value h)
  unfolding store_json
  store_json-StoredJson artifact_id value h =
      created-StoredJson artifact_id (codec.dumps value) _ h refl

  read_back :
      (artifact_id : String) (records : List Fields) (content : Bytes)
      (out : Result ProducedArtifact × Held S W) (p : ProducedArtifact) (s : S)
      → StoredJson s artifact_id content out
      → codec.loads content ≡ some (arr (array_of records))
      → out.0 ≡ ok p
      → load_records codec store artifact_id out.1 ≡ (ok records, out.1)
  unfolding load_records load_json elem
  read_back artifact_id records content (ok q, h) p s (a, g, k, m) l e =
      rw (g, m, k, l, objects-array_of records) refl
  read_back artifact_id records content (err x, h) p s k l e = cc

  -- When `store_json` returns, `load_records` reads the records under the same identifier as the
  -- codec decodes them from their encoding, if that is a list of records, and the store is lawful.
  pub store_json-load_records :
      (artifact_id : String) (value : Json) (records : List Fields) (p : ProducedArtifact)
      (h : Held S W)
      → codec.loads (codec.dumps value) ≡ some (arr (array_of records))
      → (store_json codec store artifact_id value h).0 ≡ ok p
      → load_records codec store artifact_id (store_json codec store artifact_id value h).1
        ≡ (ok records, (store_json codec store artifact_id value h).1)
  store_json-load_records artifact_id value records p h l e =
      read_back artifact_id records (codec.dumps value) (store_json codec store artifact_id value h)
        p h.store (store_json-StoredJson artifact_id value h) l e
