-- ===== src/Store/Memory.antt =====
-- worker/artifact_store.py: the store in memory, a dictionary. What is in it stays as it is.
use infra_joint_planner.Prelude.{
  String, ◌≡◌, refl, sym, inl, inr, List, [], ◌∷◌, Option, none, some, ◌==◌, if◌then◌else◌, arith,
  eq_iff, eq_refl, Bool-cases, Option-cases,
}
use infra_joint_planner.Prelude.Text.{str_leb}
use infra_joint_planner.Prelude.Sorting.{sort_by}
use infra_joint_planner.Prelude.Dict.{Dict, lookup, insert, keys, index_by, lookup-insert}
use infra_joint_planner.Core.Errors.{
  words, name, Result, ok, err, or_raise, artifact_not_found_error, artifact_conflict_error,
}
use infra_joint_planner.Store.{StoredArtifact, same, same-eq}

abbrev pub Artifacts : Type 0
Artifacts = Dict StoredArtifact

-- `InMemoryArtifactStore.__init__`
unfoldable pub of_artifacts : List StoredArtifact → Artifacts
of_artifacts artifacts = index_by (λ (a : StoredArtifact). a.artifact_id) artifacts

abbrev pub conflict : {A : Type 0} → String → Result A
conflict artifact_id = err (
    artifact_conflict_error
      (words "artifact ID already contains different content: " ∷ name artifact_id ∷ []))

abbrev put_over : Option StoredArtifact → StoredArtifact → Artifacts → Result Artifacts
put_over none artifact store = ok (insert artifact.artifact_id artifact store)
put_over (some existing) artifact store =
    if same existing artifact then ok store else conflict artifact.artifact_id

unfoldable pub put : StoredArtifact → Artifacts → Result Artifacts
put artifact store = put_over (lookup artifact.artifact_id store) artifact store

unfoldable pub get : String → Artifacts → Result StoredArtifact
get artifact_id store = or_raise (artifact_not_found_error artifact_id) (lookup artifact_id store)

unfoldable pub ids : Artifacts → List String
ids store = sort_by str_leb (keys store)

put_over-get :
    (o : Option StoredArtifact) (a : StoredArtifact) (s s' : Artifacts)
    → lookup a.artifact_id s ≡ o
    → put_over o a s ≡ ok s'
    → lookup a.artifact_id s' ≡ some a
put_over-get none a s s' e h =
    let same' : insert a.artifact_id a s ≡ s' = cc in
    rw (sym same', lookup-insert a.artifact_id a.artifact_id a s, eq_refl a.artifact_id) refl
put_over-get (some x) a s s' e h = elim (Bool-cases (same x a)) [
  | inl k ↦ let e' : s ≡ s' = ground arith in let e'' = same-eq x a k in cc
  | inr k ↦ absurd (ground arith)
]

-- What has been put is what is got back.
pub put-get :
    (a : StoredArtifact) (s s' : Artifacts) → put a s ≡ ok s' → get a.artifact_id s' ≡ ok a
unfolding put get
put-get a s s' h = rw (put_over-get (lookup a.artifact_id s) a s s' refl h) refl

pub put_over-keeps :
    (o : Option StoredArtifact) (a b : StoredArtifact) (i : String) (s s' : Artifacts)
    → lookup b.artifact_id s ≡ o
    → put_over o b s ≡ ok s'
    → lookup i s ≡ some a
    → lookup i s' ≡ some a
put_over-keeps none a b i s s' e h g =
    let same' : insert b.artifact_id b s ≡ s' = cc in
    elim (Bool-cases (b.artifact_id == i)) [
      | inl k ↦
          let e' : b.artifact_id ≡ i = ground (arith, eq_iff b.artifact_id i) in
          absurd (clash (rw e' at e) g)
      | inr k ↦ rw (sym same', lookup-insert b.artifact_id i b s, k) g
    ]
  where
    clash : lookup i s ≡ none → lookup i s ≡ some a → ⊥
    clash x y = cc
put_over-keeps (some x) a b i s s' e h g = elim (Bool-cases (same x b)) [
  | inl k ↦ let e' : s ≡ s' = ground arith in cc
  | inr k ↦ absurd (ground arith)
]

pub get-lookup :
    (i : String) (a : StoredArtifact) (s : Artifacts) → get i s ≡ ok a → lookup i s ≡ some a
unfolding get
get-lookup i a s h = elim (Option-cases (lookup i s)) [
  | inl e ↦ absurd (bad (rw e at h))
  | inr (x, e) ↦ let e' : ok x ≡ ok a = rw e at h in cc
]
  where
    bad : ◌≡◌ {A = Result StoredArtifact} (err (artifact_not_found_error i)) (ok a) → ⊥
    bad k = cc
