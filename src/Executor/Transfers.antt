-- ===== src/Executor/Transfers.antt =====
-- runtime/executor.py: which inputs `_localize_inputs` brings to the target, and from where.
use mathlib.Core.Path.{subst}
use infra_joint_planner.Prelude.{
  All-In, keep-In, String, ◌≡◌, refl, sym, ap, inl, inr, true, false, List, [], ◌∷◌, Option, some,
  In, In-keep, Bool-cases, Option-cases, first, keep,
}
use infra_joint_planner.Prelude.Dict.{Dict, lookup, keys}
use infra_joint_planner.Prelude.Text.{elem, str_leb, str_leb_total, str_leb_trans}
use infra_joint_planner.Prelude.Sorting.{sort_by, IsOrder, first-sort_by}
use infra_joint_planner.Core.Errors.{Exception, Result, ok, err}
use infra_joint_planner.Core.Json.{Float}
use infra_joint_planner.Core.State.{ArtifactRuntimeState}
use infra_joint_planner.Resolver.{get_item}
use infra_joint_planner.Surfaces.Agreement.{get_item-ok}
use infra_joint_planner.Api.{WorkerClient, PullArtifactResponse}
use infra_joint_planner.Effects.{Effect, pure, lift, continue, ◌>>=◌, Platform, total}
use infra_joint_planner.Executor.{ArtifactTransferTelemetry, source_for, pull_from, localize_inputs}

-- What a chain of two effects has been through when it returns.
bind-ok :
    {W A B : Type 0} (m : Effect W A) (f : A → Effect W B) (w : W) (b : B)
    → ((m >>= f) w).0 ≡ ok b
    → (a : A) × (w' : W) × ((f a w').0 ≡ ok b) × ((m w).0 ≡ ok a)
bind-ok {W} {A} {B} m f w b h = through (m w) h
  where
    through :
        (r : Result A × W)
        → (continue r f).0 ≡ ok b
        → (a : A) × (w' : W) × ((f a w').0 ≡ ok b) × (r.0 ≡ ok a)
    through (ok a, w') k = (a, w', k, refl)
    through (err e, w') k = absurd (cc)

ok-eq : {A : Type 0} {a b : A} → ◌≡◌ {A = Result A} (ok a) (ok b) → a ≡ b
ok-eq h = cc

module _ {W : Type 0} (platform : Platform W) (worker_clients : Dict (WorkerClient W))
    (artifacts : Dict ArtifactRuntimeState) (target : WorkerClient W) where
  -- The worker that has the least identifier of those that hold the artifact and have a client.
  pub record IsSource (locations : List String) (source : WorkerClient W) : Type 0 where
    pub id : String
    pub held : In id locations
    pub client : lookup id worker_clients ≡ some source
    pub least :
        (y : String) → In y locations → elem y (keys worker_clients) ≡ true → str_leb id y ≡ true

  -- One transfer for each input that is not at the target already, in the order of the inputs.
  pub data Brings : List String → List ArtifactTransferTelemetry → Type 0 where
    nothing : Brings [] []
    present :
        {i : String} {rest : List String} {ts : List ArtifactTransferTelemetry}
        {r : ArtifactRuntimeState}
        → lookup i artifacts ≡ some r
        → elem target.agent_id r.locations ≡ true
        → Brings rest ts
        → Brings (i ∷ rest) ts
    brought :
        {i : String} {rest : List String} {t : ArtifactTransferTelemetry}
        {ts : List ArtifactTransferTelemetry} {r : ArtifactRuntimeState} {source : WorkerClient W}
        → lookup i artifacts ≡ some r
        → elem target.agent_id r.locations ≡ false
        → IsSource r.locations source
        → t.artifact_id ≡ i
        → t.source_agent_id ≡ source.agent_id
        → t.target_agent_id ≡ target.agent_id
        → Brings rest ts
        → Brings (i ∷ rest) (t ∷ ts)

  str-IsOrder : IsOrder str_leb
  str-IsOrder = record { total = str_leb_total; trans = str_leb_trans }

  source_for-IsSource :
      (i : String) (locations : List String) (source : WorkerClient W)
      → source_for platform worker_clients artifacts target i locations ≡ ok source
      → IsSource locations source
  unfolding source_for
  source_for-IsSource i locations source h =
      let reachable = keep (λ a. elem a (keys worker_clients)) locations in
      elim (Option-cases (first (sort_by str_leb reachable))) [
        | inl e ↦ absurd (none-raises (rw (e, source_for) at h))
        | inr (id, e) ↦
            let (m, l) = first-sort_by str_leb str-IsOrder id reachable e in
            record {
              id = id;
              held = (In-keep id (λ a. elem a (keys worker_clients)) locations m).0;
              client = get_item-ok worker_clients id source (rw (e, source_for) at h);
              least = λ y my ky.
                  All-In _ y reachable l
                    (keep-In y (λ a. elem a (keys worker_clients)) locations my ky);
            }
      ]
    where
      none-raises : {x : Exception} → ◌≡◌ {A = Result (WorkerClient W)} (err x) (ok source) → ⊥
      none-raises k = cc

  abbrev Tells : String → WorkerClient W → ArtifactTransferTelemetry → Type 0
  Tells i source t =
      (t.artifact_id ≡ i)
      × (t.source_agent_id ≡ source.agent_id)
      × (t.target_agent_id ≡ target.agent_id)

  pulled :
      (i : String) (source : WorkerClient W) (t : ArtifactTransferTelemetry) (started : Float)
      (r : Result PullArtifactResponse × W)
      → (continue r λ response. total platform.perf_counter >>= λ stopped. pure (record {
        artifact_id = i;
        source_agent_id = source.agent_id;
        target_agent_id = target.agent_id;
        bytes_transferred = response.size_bytes;
        duration_ms = platform.elapsed_ms started stopped;
      })).0
        ≡ ok t
      → Tells i source t
  pulled i source t started (ok response, w) h =
      let e = ok-eq h in
      (
        ap (λ (x : ArtifactTransferTelemetry). x.artifact_id) (sym e),
        ap (λ (x : ArtifactTransferTelemetry). x.source_agent_id) (sym e),
        ap (λ (x : ArtifactTransferTelemetry). x.target_agent_id) (sym e),
      )
  pulled i source t started (err e, w) h = absurd (cc)

  pull_from-telemetry :
      (i : String) (sha : Option String) (source : WorkerClient W) (w : W)
      (t : ArtifactTransferTelemetry)
      → (pull_from platform worker_clients artifacts target i sha source w).0 ≡ ok t
      → Tells i source t
  unfolding pull_from
  pull_from-telemetry i sha source w t h =
      pulled i source t (platform.perf_counter w).0
        (target.pull_artifact i (source.artifact_url i) sha (platform.perf_counter w).1) h

  -- The transfers of an action that returns: one for each input that is not at the target, in the
  -- order of the inputs, from the location with the least identifier among those that have a client.
  pub localize_inputs-Brings :
      (inputs : List String) (w : W) (ts : List ArtifactTransferTelemetry)
      → (localize_inputs platform worker_clients artifacts target inputs w).0 ≡ ok ts
      → Brings inputs ts
  unfolding localize_inputs
  localize_inputs-Brings [] w ts h = subst (Brings []) (ok-eq h) nothing
  localize_inputs-Brings (i ∷ inputs) w ts h =
      let (r, w1, h1, e1) = bind-ok (lift (get_item artifacts i)) _ w ts h in
      let known = get_item-ok artifacts i r e1 in
      elim (Bool-cases (elem target.agent_id r.locations)) [
        | inl p ↦ present known p (localize_inputs-Brings inputs w1 ts (rw p at h1))
        | inr p ↦
            let (source, w2, h2, e2) =
              bind-ok (lift (source_for platform worker_clients artifacts target i r.locations)) _
                w1 ts (rw p at h1) in
            let (t, w3, h3, e3) =
              bind-ok (pull_from platform worker_clients artifacts target i r.sha256_hex source) _
                w2 ts h2 in
            let (rest, w4, h4, e4) =
              bind-ok (localize_inputs platform worker_clients artifacts target inputs) _ w3 ts
                h3 in
            let (a, b, c) = pull_from-telemetry i r.sha256_hex source w2 t e3 in
            subst (Brings (i ∷ inputs)) (ok-eq h4) (
              brought known p (source_for-IsSource i r.locations source e2) a b c
                (localize_inputs-Brings inputs w3 rest e4))
      ]
