-- ===== src/Executor/Tests.antt =====
-- Two inputs, of which one is at the target already.
use infra_joint_planner.Prelude.{ℕ, suc, String, ◌≡◌, refl, [], ◌∷◌, none, keep}
use infra_joint_planner.Prelude.Dict.{Dict, lookup}
use infra_joint_planner.Prelude.Text.{elem, str_leb}
use infra_joint_planner.Prelude.Sorting.{sort_by, insert_sorted}
use infra_joint_planner.Core.Errors.{ok, err, runtime_error}
use infra_joint_planner.Core.Json.{Float}
use infra_joint_planner.Core.State.{ArtifactRuntimeState}
use infra_joint_planner.Api.{WorkerClient}
use infra_joint_planner.Effects.{Platform}
use infra_joint_planner.Executor.{ArtifactTransferTelemetry, source_for, pull_from, localize_inputs}
use infra_joint_planner.Executor.Transfers.{Brings, localize_inputs-Brings}

abbrev zero_ms : Float
zero_ms = record { bits = 0 }

abbrev platform : Platform ℕ
platform = record {
  perf_counter = λ w. (zero_ms, w);
  now = λ w. (record { instant = 0; utc_offset = none }, w);
  uuid4 = λ w. ("id", w);
  elapsed_ms = λ a b. zero_ms;
  float_sum = λ xs. zero_ms;
}

-- A worker that pulls five bytes, and counts the pulls in the world.
abbrev worker : String → WorkerClient ℕ
worker agent_id = record {
  agent_id = agent_id;
  execute_operator = λ a d w. (err (runtime_error []), w);
  get_state = λ w. (err (runtime_error []), w);
  artifact_url = λ i. i;
  pull_artifact =
      λ i url sha w. (ok (record { artifact_id = i; size_bytes = 5; sha256_hex = "s" }), suc w);
  put_artifact = λ i media content sha w. (err (runtime_error []), w);
}

abbrev clients : Dict (WorkerClient ℕ)
clients = ("edge", worker "edge") ∷ ("cloud", worker "cloud") ∷ []

abbrev at_agent : String → String → ArtifactRuntimeState
at_agent i agent_id = record {
  artifact_id = i;
  locations = agent_id ∷ [];
  media_type = none;
  size_bytes = none;
  sha256_hex = none;
}

abbrev artifacts : Dict ArtifactRuntimeState
artifacts = ("doc", at_agent "doc" "edge") ∷ ("note", at_agent "note" "cloud") ∷ []

abbrev moved : ArtifactTransferTelemetry
moved = record {
  artifact_id = "doc";
  source_agent_id = "edge";
  target_agent_id = "cloud";
  bytes_transferred = 5;
  duration_ms = zero_ms;
}

localized :
    (localize_inputs platform clients artifacts (worker "cloud") ("note" ∷ "doc" ∷ []) 0).0
    ≡ ok (moved ∷ [])
unfolding localize_inputs source_for pull_from keep elem lookup sort_by insert_sorted str_leb
localized = refl

localize_inputs-Brings_example :
    Brings platform clients artifacts (worker "cloud") ("note" ∷ "doc" ∷ []) (moved ∷ [])
localize_inputs-Brings_example =
    localize_inputs-Brings platform clients artifacts (worker "cloud") ("note" ∷ "doc" ∷ []) 0
      (moved ∷ []) localized
