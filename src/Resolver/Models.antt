-- ===== src/Resolver/Models.antt =====
-- Resolution for a model operator: `resolve_model`, the candidates and their preflight.
pub mod Placement
pub mod Failures
use infra_joint_planner.Prelude.{
  ℕ, ◌<◌, String, ◌≡◌, ◌≢◌, refl, sym, ap, ◌⊎◌, inl, inr, Bool, true, false, ◌&&◌, List, [], ◌∷◌,
  Option, none, some, arith, keep, all, map, first, In, In-keep, keep-In, In-map, map-In, All,
  All-In, All-of_In, Bool-cases, Option-cases, eq_iff, not,
}
use mathlib.Core.Path.{subst}
use infra_joint_planner.Prelude.Text.{elem, elem→In, In→elem, str_leb}
use infra_joint_planner.Prelude.Sorting.{sort_by, first-sort_by, first-sort_by_cons}
use infra_joint_planner.Prelude.Dict.{Dict, lookup, values, index_by, lookup-index_by}
use infra_joint_planner.Core.Errors.{
  Result, ok, err, ◌>>=◌, ◌>>◌, Exception, ResolutionErrorCode, Message, infeasible_binding,
  binding_resolution_error, traverse, >>=-eq-ok,
}
use infra_joint_planner.Core.Json.{Json}
use infra_joint_planner.Core.Action.{
  PhysicalPolicy, auto, data_local, target_agent, target_deployment, PhysicalDecision,
  SemanticAction,
}
use infra_joint_planner.Core.State.{
  DeploymentSpec, EnvironmentSpec, DeploymentRuntimeState, InfrastructureState,
}
use infra_joint_planner.Resolver.{
  ResolvedBinding, RequestError, transfers_needed, rank_leb, is_value, model_request_error,
  placed_candidates, admitted, raise_preflight, bind_selected, ranking, by_deployment_id,
  model_candidates, choose_deployment, resolve_model,
}
use infra_joint_planner.Resolver.Ranking.{rank-IsOrder, str-IsOrder}
use infra_joint_planner.Resolver.Agents.{local_everywhere}

-- A pair of the preflight holds the result of its own check.
module _ (check : DeploymentSpec → Result RequestError) where
  abbrev pub checked : DeploymentSpec → Result (DeploymentSpec × RequestError)
  checked item = do error ← check item; ok (item, error)

  checked-cons :
      (x : DeploymentSpec) (xs : List DeploymentSpec) (pairs : List (DeploymentSpec × RequestError))
      → traverse checked (x ∷ xs) ≡ ok pairs
      → (error : RequestError) × (rest : List (DeploymentSpec × RequestError)) × (check x
          ≡ ok error)
        × (traverse checked xs ≡ ok rest)
        × (pairs ≡ (x, error) ∷ rest)
  unfolding traverse
  checked-cons x xs pairs h =
      let (p, e, h') = >>=-eq-ok (checked x) _ h in
      let (error, e', e'') = >>=-eq-ok (check x) _ e in
      let (rest, r, h'') = >>=-eq-ok (traverse checked xs) _ h' in (error, rest, e', r, cc)

  pub traverse-checked :
      (items : List DeploymentSpec) (pairs : List (DeploymentSpec × RequestError))
      → traverse checked items ≡ ok pairs
      → (p : DeploymentSpec × RequestError) → In p pairs
      → In p.0 items × (check p.0 ≡ ok p.1)
  unfolding traverse
  traverse-checked [] pairs h p m = let e : pairs ≡ [] = cc in absurd (subst (In p) e m)
  traverse-checked (x ∷ xs) pairs h p m =
      let (error, rest, e, r, split) = checked-cons x xs pairs h in
      found error rest e (traverse-checked xs rest r p) (subst (In p) split m)
    where
      found :
          (error : RequestError) (rest : List (DeploymentSpec × RequestError))
          → check x ≡ ok error
          → (In p rest → In p.0 xs × (check p.0 ≡ ok p.1))
          → In p ((x, error) ∷ rest)
          → In p.0 (x ∷ xs) × (check p.0 ≡ ok p.1)
      found error rest e ih (inl q) = (inl (ap (λ t. t.0) q), rw q e)
      found error rest e ih (inr m') = let (k, c) = ih m' in (inr k, c)

  pub checked-traverse :
      (items : List DeploymentSpec) (pairs : List (DeploymentSpec × RequestError))
      → traverse checked items ≡ ok pairs
      → (x : DeploymentSpec) → In x items
      → check x ≡ ok none
      → In (x, none) pairs
  checked-traverse [] pairs h x m e = absurd m
  checked-traverse (y ∷ ys) pairs h x (inl q) e =
      let (error, rest, e', r, split) = checked-cons y ys pairs h in
      let same : error ≡ none = cc in rw split (inl (λ i. (q i, sym same i)))
  checked-traverse (y ∷ ys) pairs h x (inr m) e =
      let (error, rest, e', r, split) = checked-cons y ys pairs h in
      rw split (inr (checked-traverse ys rest r x m e))

abbrev pub binding_of : DeploymentSpec → ResolvedBinding
binding_of d = record { agent_ids = d.agent_id ∷ []; deployment_id = some d.deployment_id }

admitted-none : (p : DeploymentSpec × RequestError) → admitted p ≡ true → p.1 ≡ none
admitted-none (item, none) h = refl
admitted-none (item, some e) h = absurd (cc)

not_raised :
    (o : Option (DeploymentSpec × RequestError)) {b : ResolvedBinding} → raise_preflight o ≢ ok b
not_raised none h = cc
not_raised (some (item, none)) h = cc
not_raised (some (item, some (code, m))) h = cc

abbrev pub fits : List (DeploymentSpec × RequestError) → List DeploymentSpec
fits pairs = map (λ p. p.0) (keep admitted pairs)

module _ (pairs : List (DeploymentSpec × RequestError)) (y : DeploymentSpec) where
  pub fits_of : In (y, none) pairs → In y (fits pairs)
  fits_of m =
      map-In (y, none) (λ p. p.0) (keep admitted pairs) (keep-In (y, none) admitted pairs m refl)

  of_fits : In y (fits pairs) → In (y, none) pairs
  of_fits m =
      let (p, kept, e) = In-map y (λ p. p.0) (keep admitted pairs) m in
      let (mp, good) = In-keep p admitted pairs kept in
      let n = admitted-none p good in subst (λ q. In q pairs) (λ i. (sym e i, n i)) mp

-- The choice is an admitted pair, and the least of those.
pub choose_deployment-least :
    (located : List (List String)) (pairs : List (DeploymentSpec × RequestError))
    (b : ResolvedBinding)
    → choose_deployment located pairs ≡ ok b
    → (d : DeploymentSpec) × (b ≡ binding_of d)
      × In (d, none) pairs
      × ((y : DeploymentSpec) → In (y, none) pairs → ranking located d y ≡ true)
unfolding choose_deployment
choose_deployment-least located pairs b h =
    chosen (first (sort_by (ranking located) (fits pairs))) refl h
  where
    chosen :
        (o : Option DeploymentSpec)
        → first (sort_by (ranking located) (fits pairs)) ≡ o
        → bind_selected o (raise_preflight (first (sort_by by_deployment_id pairs))) ≡ ok b
        → (d : DeploymentSpec) × (b ≡ binding_of d)
          × In (d, none) pairs
          × ((y : DeploymentSpec) → In (y, none) pairs → ranking located d y ≡ true)
    chosen none e k = absurd (not_raised _ k)
    chosen (some d) e k =
        let order =
          rank-IsOrder (λ (x : DeploymentSpec). transfers_needed located x.agent_id)
            (λ x. x.deployment_id) in
        let (m, least) = first-sort_by (ranking located) order d (fits pairs) e in
        (
          d,
          cc,
          of_fits pairs d m,
          λ y my.
              All-In (λ z. ranking located d z ≡ true) y (fits pairs) least (fits_of pairs y my),
        )
