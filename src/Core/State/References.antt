-- ===== src/Core/State/References.antt =====
-- What a validated environment guarantees: unique identifiers, and no dangling reference.
use infra_joint_planner.Prelude.{
  ◌≤◌, String, ◌≡◌, refl, ◌↔◌, ◌⊎◌, inl, inr, Bool, true, ◌&&◌, List, [], ◌∷◌, none, map, arith,
  length, In, Bool-cases,
}
use mathlib.Core.Bool.{false≢true}
use infra_joint_planner.Prelude.Text.{elem, elem→In, In→elem}
use infra_joint_planner.Core.Errors.{ok}
use infra_joint_planner.Core.State.{
  AgentSpec, DeploymentSpec, ArtifactPlacement, LinkSpec, EnvironmentSpec, distinct, is_unique,
  first_failing, references_exist,
}

-- No element stands in the list twice.
abbrev pub Distinct : List String → Type 0
Distinct [] = Unit
Distinct (x ∷ xs) = (¬ In x xs) × Distinct xs

distinct-In : (a : String) (xs : List String) → In a xs → In a (distinct xs)
unfolding distinct
distinct-In a [] m = m
distinct-In a (x ∷ xs) m = elim (Bool-cases (elem x (distinct xs))) [
  | inl old ↦ rw old (kept old (distinct-In a xs) m)
  | inr new ↦ rw new (added (distinct-In a xs) m)
]
  where
    kept :
        elem x (distinct xs) ≡ true
        → (In a xs → In a (distinct xs))
        → (a ≡ x) ⊎ In a xs
        → In a (distinct xs)
    kept old ih (inl e) = rw e (elem→In x (distinct xs) old)
    kept old ih (inr r) = ih r

    added : (In a xs → In a (distinct xs)) → (a ≡ x) ⊎ In a xs → In a (x ∷ distinct xs)
    added ih (inl e) = inl e
    added ih (inr r) = inr (ih r)

In-distinct : (a : String) (xs : List String) → In a (distinct xs) → In a xs
unfolding distinct
In-distinct a [] m = m
In-distinct a (x ∷ xs) m = elim (Bool-cases (elem x (distinct xs))) [
  | inl old ↦ inr (In-distinct a xs (rw old at m))
  | inr new ↦ added (In-distinct a xs) (rw new at m)
]
  where
    added : (In a (distinct xs) → In a xs) → (a ≡ x) ⊎ In a (distinct xs) → (a ≡ x) ⊎ In a xs
    added ih (inl e) = inl e
    added ih (inr r) = inr (ih r)

length-distinct-le : (xs : List String) → length (distinct xs) ≤ length xs
unfolding distinct
length-distinct-le [] = omega arith
length-distinct-le (x ∷ xs) = ground (arith, length-distinct-le xs)

unique_of_length : (xs : List String) → length xs ≡ length (distinct xs) → Distinct xs
unfolding distinct
unique_of_length [] e = tt
unique_of_length (x ∷ xs) e = elim (Bool-cases (elem x (distinct xs))) [
  | inl old ↦ absurd (ground (arith, length-distinct-le xs))
  | inr new ↦ (
    λ m. false≢true (cc (new, In→elem x (distinct xs) (distinct-In x xs m))),
    unique_of_length xs (ground arith),
  )
]

length_of_unique : (xs : List String) → Distinct xs → length xs ≡ length (distinct xs)
unfolding distinct
length_of_unique [] u = refl
length_of_unique (x ∷ xs) u = elim (Bool-cases (elem x (distinct xs))) [
  | inl old ↦ absurd (u.0 (In-distinct x xs (elem→In x (distinct xs) old)))
  | inr new ↦ rw new (omega (arith, length_of_unique xs u.1))
]

pub is_unique-Distinct : (xs : List String) → (is_unique xs ≡ true) ↔ Distinct xs
unfolding is_unique
is_unique-Distinct xs =
    (λ h. unique_of_length xs (ground arith), λ u. ground (arith, length_of_unique xs u))

first_failing-none :
    {A : Type 0} (p : A → Bool) (xs : List A)
    → first_failing p xs ≡ none
    → (a : A) → In a xs
    → p a ≡ true
unfolding first_failing
first_failing-none p [] h a m = absurd m
first_failing-none p (x ∷ xs) h a (inl e) = rw e (ground arith)
first_failing-none p (x ∷ xs) h a (inr m) = first_failing-none p xs (ground arith) a m

none-first_failing :
    {A : Type 0} (p : A → Bool) (xs : List A)
    → ((a : A) → In a xs → p a ≡ true)
    → first_failing p xs ≡ none
unfolding first_failing
none-first_failing p [] h = refl
none-first_failing p (x ∷ xs) h = rw (h x (inl refl)) (none-first_failing p xs (λ a m. h a (inr m)))

abbrev pub agent_ids : EnvironmentSpec → List String
agent_ids e = map (λ (a : AgentSpec). a.agent_id) e.agents

-- The environment's identifiers are unique, and what it names is there.
pub record IsWellFormed (e : EnvironmentSpec) : Type 0 where
  pub agents_distinct : Distinct (agent_ids e)
  pub deployments_distinct : Distinct (map (λ (d : DeploymentSpec). d.deployment_id) e.deployments)
  pub deployment_agents : (d : DeploymentSpec) → In d e.deployments → In d.agent_id (agent_ids e)
  pub placement_agents :
      (p : ArtifactPlacement) → In p e.initial_placements → In p.agent_id (agent_ids e)
  pub link_agents :
      (l : LinkSpec)
      → In l e.links
      → In l.source_agent_id (agent_ids e) × In l.target_agent_id (agent_ids e)

module _ (e : EnvironmentSpec) where
  abbrev deployment_ids : List String
  deployment_ids = map (λ (d : DeploymentSpec). d.deployment_id) e.deployments

  abbrev known_deployment : DeploymentSpec → Bool
  known_deployment d = elem d.agent_id (agent_ids e)

  abbrev known_placement : ArtifactPlacement → Bool
  known_placement p = elem p.agent_id (agent_ids e)

  abbrev known_link : LinkSpec → Bool
  known_link l = elem l.source_agent_id (agent_ids e) && elem l.target_agent_id (agent_ids e)

  -- The tests that the validator makes, in its order.
  record Passes : Type 0 where
    agents : is_unique (agent_ids e) ≡ true
    deployments : is_unique deployment_ids ≡ true
    owners : first_failing known_deployment e.deployments ≡ none
    places : first_failing known_placement e.initial_placements ≡ none
    ends : first_failing known_link e.links ≡ none

  passes_of_ok : references_exist e ≡ ok e → Passes
  unfolding references_exist
  passes_of_ok h = ground arith

  ok_of_passes : Passes → references_exist e ≡ ok e
  unfolding references_exist
  ok_of_passes p = ground arith

  well_formed : Passes → IsWellFormed e
  well_formed p = record {
    agents_distinct = (is_unique-Distinct (agent_ids e)).0 p.agents;
    deployments_distinct = (is_unique-Distinct deployment_ids).0 p.deployments;
    deployment_agents = λ d m.
        elem→In d.agent_id (agent_ids e)
          (first_failing-none known_deployment e.deployments p.owners d m);
    placement_agents = λ a m.
        elem→In a.agent_id (agent_ids e)
          (first_failing-none known_placement e.initial_placements p.places a m);
    link_agents = λ l m.
        let both = first_failing-none known_link e.links p.ends l m in
        (
          elem→In l.source_agent_id (agent_ids e) (ground arith),
          elem→In l.target_agent_id (agent_ids e) (ground arith),
        );
  }

  passes : IsWellFormed e → Passes
  passes w = record {
    agents = (is_unique-Distinct (agent_ids e)).1 w.agents_distinct;
    deployments = (is_unique-Distinct deployment_ids).1 w.deployments_distinct;
    owners =
        none-first_failing known_deployment e.deployments
          λ d m. In→elem d.agent_id (agent_ids e) (w.deployment_agents d m);
    places =
        none-first_failing known_placement e.initial_placements
          λ a m. In→elem a.agent_id (agent_ids e) (w.placement_agents a m);
    ends = none-first_failing known_link e.links λ l m.
        let both = w.link_agents l m in
        rw (
          In→elem l.source_agent_id (agent_ids e) both.0,
          In→elem l.target_agent_id (agent_ids e) both.1,
        );
  }

-- An environment is accepted exactly when its agent and deployment identifiers are each unique and
-- every deployment, initial placement and link names only agents that it declares.
pub references_exist_iff : (e : EnvironmentSpec) → (references_exist e ≡ ok e) ↔ IsWellFormed e
references_exist_iff e = (λ h. well_formed e (passes_of_ok e h), λ w. ok_of_passes e (passes e w))
