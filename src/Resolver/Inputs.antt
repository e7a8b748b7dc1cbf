-- ===== src/Resolver/Inputs.antt =====
-- Where an action's inputs are, and that looking them up behind the test for missing ones never fails.
use infra_joint_planner.Prelude.{
  String, ◌≡◌, refl, inl, inr, true, not, List, [], ◌∷◌, Option, none, some, arith, map, keep, All,
  Bool-cases,
}
use infra_joint_planner.Prelude.Dict.{lookup, has_key}
use infra_joint_planner.Core.Errors.{Result, ok, ◌>>=◌, traverse}
use infra_joint_planner.Core.State.{ArtifactRuntimeState, InfrastructureState}
use infra_joint_planner.Resolver.{get_item, artifacts_by_id, is_empty}

-- The locations of an artifact, none if the state does not know it.
abbrev pub locations_of : InfrastructureState → String → List String
locations_of state artifact_id = elim (lookup artifact_id (artifacts_by_id state)) [
  | none ↦ []
  | some a ↦ a.locations
]

-- The state knows every input.
abbrev pub KnowsInputs : InfrastructureState → List String → Type 0
KnowsInputs state inputs =
    All (λ artifact_id. has_key artifact_id (artifacts_by_id state) ≡ true) inputs

abbrev pub missing_inputs : InfrastructureState → List String → List String
missing_inputs state inputs =
    keep (λ artifact_id. not (has_key artifact_id (artifacts_by_id state))) inputs

module _ (state : InfrastructureState) where
  pub none_missing :
      (inputs : List String)
      → is_empty (missing_inputs state inputs) ≡ true
      → KnowsInputs state inputs
  unfolding keep
  none_missing [] h = tt
  none_missing (i ∷ inputs) h = elim (Bool-cases (has_key i (artifacts_by_id state))) [
    | inl k ↦ (k, none_missing inputs (ground arith))
    | inr k ↦ absurd (ground arith)
  ]

  pub missing_none :
      (inputs : List String)
      → KnowsInputs state inputs
      → is_empty (missing_inputs state inputs) ≡ true
  unfolding keep
  missing_none [] h = refl
  missing_none (i ∷ inputs) h = ground (arith, missing_none inputs h.1)

  abbrev pub location_lookup : String → Result (List String)
  location_lookup artifact_id = do
    artifact ← get_item (artifacts_by_id state) artifact_id
    ok artifact.locations

  -- With every input known the lookups succeed, with the inputs' locations in order.
  pub located_ok :
      (inputs : List String)
      → KnowsInputs state inputs
      → traverse location_lookup inputs ≡ ok (map (locations_of state) inputs)
  unfolding traverse
  located_ok [] h = refl
  located_ok (i ∷ inputs) h = found (located_ok inputs h.1) (lookup i (artifacts_by_id state)) refl
    where
      found :
          traverse location_lookup inputs ≡ ok (map (locations_of state) inputs)
          → (o : Option ArtifactRuntimeState) → lookup i (artifacts_by_id state) ≡ o
          → traverse location_lookup (i ∷ inputs) ≡ ok (map (locations_of state) (i ∷ inputs))
      found rest none e = absurd (cc (h.0))
      found rest (some a) e =
          let here : locations_of state i ≡ a.locations = rw (e, locations_of) in
          rw (e, rest, ← here)
