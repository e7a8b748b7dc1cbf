-- ===== src/Runner/Delivery.antt =====
-- experiments/runner.py: which transfers the runner makes before a run.
use infra_joint_planner.Prelude.{String, ◌≡◌, refl, ap, ◌∙◌, List, [], ◌∷◌, ◌++◌, map}
use infra_joint_planner.Prelude.Text.{str_leb}
use infra_joint_planner.Prelude.Sorting.{sort_by}
use infra_joint_planner.Prelude.Dict.{Dict, index_by}
use infra_joint_planner.Core.Errors.{Result, ok, err}
use infra_joint_planner.Core.State.{ArtifactPlacement, EnvironmentSpec}
use infra_joint_planner.Core.Task.{ArtifactSpec}
use infra_joint_planner.Model.{Bytes}
use infra_joint_planner.Resolver.{get_item}
use infra_joint_planner.Api.{WorkerClient, PullArtifactResponse}
use infra_joint_planner.Core.Json.{Float}
use infra_joint_planner.Executor.{ArtifactTransferTelemetry}
use infra_joint_planner.Effects.{Effect, pure, lift, ◌>>=◌, continue, Platform, total}
use infra_joint_planner.Benchmarks.{PreparedArtifact, AdaptationBundle}
use infra_joint_planner.Runner.{
  agents_for, artifact_content, put_at, sent, put_all, materialize_from, materialize,
  check_placements,
}

-- The result, if there is one, is as `P` says.
abbrev Returns : {A : Type 0} → (A → Type 0) → Result A → Type 0
Returns P (ok a) = P a
Returns P (err e) = Unit

abbrev Gives : {W A : Type 0} → (A → Type 0) → Effect W A → Type 0
Gives {W} P m = (w : W) → Returns P (m w).0

module _ {W A B : Type 0} (Q : B → Type 0) where
  continue-Returns :
      (P : A → Type 0) (r : Result A × W) (f : A → Effect W B)
      → Returns P r.0
      → ((a : A) → P a → Gives Q (f a))
      → Returns Q (continue r f).0
  continue-Returns P (ok a, w) f h k = k a h w
  continue-Returns P (err e, w) f h k = tt

  any-Returns :
      (r : Result A × W) (f : A → Effect W B)
      → ((a : A) → Gives Q (f a))
      → Returns Q (continue r f).0
  any-Returns (ok a, w) f k = k a w
  any-Returns (err e, w) f k = tt

  bind-Gives :
      (P : A → Type 0) (m : Effect W A) (f : A → Effect W B)
      → Gives P m
      → ((a : A) → P a → Gives Q (f a))
      → Gives Q (m >>= f)
  bind-Gives P m f h k w = continue-Returns P (m w) f (h w) k

  bind-any : (m : Effect W A) (f : A → Effect W B) → ((a : A) → Gives Q (f a)) → Gives Q (m >>= f)
  bind-any m f k w = any-Returns (m w) f k

-- A delivery: the artifact, where it comes from, and where it goes.
abbrev pub Delivery : Type 0
Delivery = String × String × String

abbrev pub delivery : ArtifactTransferTelemetry → Delivery
delivery t = (t.artifact_id, t.source_agent_id, t.target_agent_id)

-- The deliveries of one artifact: from the controller to the agents of its placements, sorted.
abbrev pub deliveries_of : List ArtifactPlacement → ArtifactSpec → List Delivery
deliveries_of placements spec =
    map (λ agent_id. (spec.artifact_id, "controller", agent_id))
      (sort_by str_leb (agents_for spec.artifact_id placements))

abbrev pub planned : List ArtifactPlacement → List ArtifactSpec → List Delivery
planned placements [] = []
planned placements (spec ∷ specs) = deliveries_of placements spec ++ planned placements specs

map-append : {A B : Type 0} (f : A → B) (xs ys : List A) → map f (xs ++ ys) ≡ map f xs ++ map f ys
map-append f [] ys = refl
map-append f (x ∷ xs) ys = ap (λ r. f x ∷ r) (map-append f xs ys)

module _ {W : Type 0} (platform : Platform W) (sha256 : Bytes → String)
    (read_bytes : String → Effect W Bytes) (artifact_sources : Dict String)
    (worker_clients : Dict (WorkerClient W)) where
  abbrev Goes : ArtifactSpec → String → ArtifactTransferTelemetry → Type 0
  Goes spec agent_id t = delivery t ≡ (spec.artifact_id, "controller", agent_id)

  module _ (spec : ArtifactSpec) (agent_id : String) where
    abbrev then_sent : Float → PullArtifactResponse → Effect W ArtifactTransferTelemetry
    then_sent started response = do
      stopped ← total platform.perf_counter
      pure (
          sent platform sha256 read_bytes artifact_sources worker_clients spec agent_id response
            started stopped)

    answered-Goes :
        (started : Float) (r : Result PullArtifactResponse × W)
        → Returns (Goes spec agent_id) (continue r (then_sent started)).0
    answered-Goes started (ok response, w) = refl
    answered-Goes started (err e, w) = tt

    client-Goes :
        (content : Bytes) (checksum : String) (started : Float) (c : Result (WorkerClient W))
        (w : W)
        → Returns
            (Goes spec agent_id)
            (continue
              (c, w)
              (λ client.
                client.put_artifact spec.artifact_id spec.media_type content checksum
                >>= then_sent started)).0
    client-Goes content checksum started (ok client) w =
        answered-Goes started
          (client.put_artifact spec.artifact_id spec.media_type content checksum w)
    client-Goes content checksum started (err e) w = tt

    put_at-Goes :
        (content : Bytes) (checksum : String)
        → Gives (Goes spec agent_id) (
            put_at platform sha256 read_bytes artifact_sources worker_clients spec content checksum
              agent_id)
    unfolding put_at
    put_at-Goes content checksum w =
        client-Goes content checksum (platform.perf_counter w).0 (get_item worker_clients agent_id)
          (platform.perf_counter w).1

  -- The deliveries of the transfers are these.
  abbrev Are : List Delivery → List ArtifactTransferTelemetry → Type 0
  Are deliveries ts = map delivery ts ≡ deliveries

  abbrev to_agents : ArtifactSpec → List String → List Delivery
  to_agents spec agents = map (λ agent_id. (spec.artifact_id, "controller", agent_id)) agents

  put_all-Are :
      (spec : ArtifactSpec) (content : Bytes) (checksum : String) (agents : List String)
      → Gives (Are (to_agents spec agents)) (
          put_all platform sha256 read_bytes artifact_sources worker_clients spec content checksum
            agents)
  unfolding put_all
  put_all-Are spec content checksum [] = λ w. refl
  put_all-Are spec content checksum (agent_id ∷ agents) =
      bind-Gives (Are (to_agents spec (agent_id ∷ agents))) (Goes spec agent_id) _ _
        (put_at-Goes spec agent_id content checksum)
        λ t e.
          bind-Gives (Are (to_agents spec (agent_id ∷ agents))) (Are (to_agents spec agents)) _ _
            (put_all-Are spec content checksum agents) λ ts e' w. cc

  materialize_from-Are :
      (prepared : Dict PreparedArtifact) (placements : List ArtifactPlacement)
      (specs : List ArtifactSpec)
      → Gives (Are (planned placements specs)) (
          materialize_from platform sha256 read_bytes artifact_sources worker_clients prepared
            placements specs)
  unfolding materialize_from
  materialize_from-Are prepared placements [] = λ w. refl
  materialize_from-Are prepared placements (spec ∷ specs) =
      bind-any (Are (planned placements (spec ∷ specs)))
        (artifact_content platform sha256 read_bytes artifact_sources worker_clients
          spec.artifact_id prepared)
        _
        λ found. bind-any (Are (planned placements (spec ∷ specs))) _ _ λ v.
          bind-Gives (Are (planned placements (spec ∷ specs))) (Are (deliveries_of placements spec))
            _ _
            (put_all-Are spec found.0 found.1
              (sort_by str_leb (agents_for spec.artifact_id placements)))
            λ ts e.
              bind-Gives (Are (planned placements (spec ∷ specs))) (Are (planned placements specs))
                _ _ (materialize_from-Are prepared placements specs)
                λ more e' w. map-append delivery ts more ∙ cc

  -- The transfers that the runner reports before a run, if it does not raise, are one from the
  -- controller to each agent on which an artifact of the task is placed, artifact by artifact in the
  -- task's order, the agents of each in the order of their ids, and no other.
  pub materialize-Are :
      (environment : EnvironmentSpec) (bundle : AdaptationBundle)
      → Gives (Are (planned environment.initial_placements bundle.execution.task.artifacts)) (
          materialize platform sha256 read_bytes artifact_sources worker_clients environment bundle)
  unfolding materialize
  materialize-Are environment bundle =
      bind-any (Are (planned environment.initial_placements bundle.execution.task.artifacts))
        (lift (check_placements environment.initial_placements bundle.execution.task.artifacts)) _
        λ v.
          materialize_from-Are
            (index_by (λ (p : PreparedArtifact). p.spec.artifact_id) bundle.prepared_artifacts)
            environment.initial_placements bundle.execution.task.artifacts
