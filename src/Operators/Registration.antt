-- ===== src/Operators/Registration.antt =====
-- worker/server.py: the operators that `create_worker_app` registers, and the planner's catalog.
use mathlib.Core.Path.{subst}
use mathlib.Core.List.{Perm, append-nil}
use mathlib.Core.List.Perm
use infra_joint_planner.Prelude.{
  ℕ, ◌≡◌, refl, sym, ◌∙◌, not, List, [], ◌∷◌, ◌++◌, Option, none, some, map, ltb,
}
use infra_joint_planner.Prelude.Dict.{Dict, keys, values, lookup, insert}
use infra_joint_planner.Core.Errors.{Result, ok, err, ◌>>◌, require, words, value_error}
use infra_joint_planner.Core.Json.{Fields}
use infra_joint_planner.Model.{Decoder, ModelDeployment}
use infra_joint_planner.Registry.{OperatorSpec, OperatorRegistry, empty, register, specs}
use infra_joint_planner.Store.Interface.{ArtifactStore}
use infra_joint_planner.Surfaces.{same_set}
use infra_joint_planner.Worker.{Handler, Backend, read_artifact, model_marker}
use infra_joint_planner.Operators.Builtin.{invoke_model_spec, read_artifact_spec}
use infra_joint_planner.Operators.Catalog.{
  Schemas, register_all, filter_spec, select_spec, derive_spec, aggregate_spec, top_k_spec,
  concatenate_spec, bm25_retrieve_spec, sample_frames_spec, extract_clip_spec,
  make_contact_sheet_spec, build_operator_catalog, catalog_specs, structured_operator_specs,
}
use infra_joint_planner.Operators.Records.{Codec}
use infra_joint_planner.Operators.Structured.{Values}
use infra_joint_planner.Operators.Structured.Handlers.{
  Parsers, filter_records, select_fields, derive_fields, aggregate_records, top_k_records,
  aggregate_artifacts,
}
use infra_joint_planner.Operators.Retrieval.{Scoring, Bm25Arguments, bm25_retrieve}
use infra_joint_planner.Operators.Media.{MediaBackend}
use infra_joint_planner.Operators.Media.Handlers.{
  MediaParsers, Imaging, Scratch, sample_frames, extract_clip, make_contact_sheet,
}

-- What the operators of a worker need, besides its store.
pub record Toolbox (P : Type 0) : Type 0 where
  pub schemas : Schemas
  pub values : Values
  pub scoring : Scoring
  pub parsers : Parsers
  pub media_parsers : MediaParsers
  pub bm25_parser : Fields → Result Bm25Arguments
  pub codec : Codec
  pub imaging : Imaging P
  pub utf8 : Decoder

-- What `create_worker_app` requires of its arguments.
abbrev pub check_settings :
    {W : Type 0} → Dict (ModelDeployment (Backend W)) → ℕ → Result (Unit {0})
check_settings {W} deployments limit = do
  require (not (ltb limit 1)) (value_error (words "max_read_artifact_bytes must be positive" ∷ []))
  require
      (same_set (keys deployments)
        (map (λ (d : ModelDeployment (Backend W)). d.deployment_id) (values deployments)))
      (value_error (words "deployment mapping keys must match deployment IDs" ∷ []))

abbrev pub Operators : Type 0 → Type 0 → Type 0
Operators S W = List (OperatorSpec × Handler S W)

module _ {S P : Type 0} (W : Type 0) (tools : Toolbox P) (store : ArtifactStore S) where
  abbrev pub builtin_operators : ℕ → Operators S W
  builtin_operators limit =
      (invoke_model_spec, model_marker store)
      ∷ (read_artifact_spec, read_artifact store tools.utf8 limit)
      ∷ []

  -- `register_structured_operators`
  abbrev pub structured_operators : Operators S W
  structured_operators =
      (filter_spec tools.schemas, filter_records tools.values tools.parsers tools.codec store)
      ∷ (select_spec tools.schemas, select_fields tools.values tools.parsers tools.codec store)
      ∷ (derive_spec tools.schemas, derive_fields tools.values tools.parsers tools.codec store)
      ∷ (
        aggregate_spec tools.schemas,
        aggregate_records tools.values tools.parsers tools.codec store,
      )
      ∷ (top_k_spec tools.schemas, top_k_records tools.values tools.parsers tools.codec store)
      ∷ (
        concatenate_spec tools.schemas,
        aggregate_artifacts tools.values tools.parsers tools.codec store,
      )
      ∷ []

  -- `register_retrieval_operators`
  abbrev pub retrieval_operators : Operators S W
  retrieval_operators =
      (
        bm25_retrieve_spec tools.schemas,
        bm25_retrieve tools.scoring tools.bm25_parser tools.codec store,
      )
      ∷ []

  abbrev video_operators : Option (MediaBackend (Scratch W)) → Operators S W
  video_operators none = []
  video_operators (some backend) =
      (
        sample_frames_spec tools.schemas,
        sample_frames store tools.codec.sha256 tools.media_parsers (some backend),
      )
      ∷ (
        extract_clip_spec tools.schemas,
        extract_clip store tools.codec.sha256 tools.media_parsers (some backend),
      )
      ∷ []

  -- `register_media_operators`: those on videos only where there is a backend
  abbrev pub media_operators : Option (MediaBackend (Scratch W)) → Operators S W
  media_operators backend =
      (
        make_contact_sheet_spec tools.schemas,
        make_contact_sheet store tools.codec.sha256 tools.media_parsers tools.imaging,
      )
      ∷ video_operators backend

  -- `create_worker_app`, as far as the registry that it makes
  unfoldable pub create_worker_app :
      Dict (ModelDeployment (Backend W))
      → Option (MediaBackend (Scratch W))
      → ℕ
      → Result (OperatorRegistry (Handler S W))
  unfolding invoke_model_spec read_artifact_spec
  create_worker_app deployments media_backend limit = do
    check_settings deployments limit
    register_all
        (builtin_operators limit
          ++ (structured_operators ++ (retrieval_operators ++ media_operators media_backend)))
        empty

abbrev pub registry_of : {H : Type 0} → List (OperatorSpec × H) → OperatorRegistry H
registry_of operators = record {
  bindings = map (λ o. (o.0.operator_id, record { spec = o.0; handler = o.1 })) operators;
}

middle : {A : Type 0} (y : A) (xs ys : List A) → Perm (xs ++ y ∷ ys) (y ∷ (xs ++ ys))
middle y [] ys = Perm.rfl
middle y (x ∷ xs) ys = Perm.trans (Perm.cons x (middle y xs ys)) (Perm.swap y x (xs ++ ys))

swap_parts : {A : Type 0} (xs ys : List A) → Perm (xs ++ ys) (ys ++ xs)
swap_parts xs [] = subst (λ zs. Perm zs xs) (sym (append-nil xs)) Perm.rfl
swap_parts xs (y ∷ ys) = Perm.trans (middle y xs ys) (Perm.cons y (swap_parts xs ys))

passed : {A B : Type 0} (m : Result A) (n : Result B) {b : B} → (m >> n) ≡ ok b → n ≡ ok b
passed (ok u) n h = h
passed (err e) n h = cc

module _ {S W P H : Type 0} (tools : Toolbox P) (store : ArtifactStore S)
    (backend : MediaBackend (Scratch W)) (limit : ℕ) (unavailable_handler : H) where
  abbrev pub worker_operators : Operators S W
  worker_operators =
      builtin_operators W tools store limit
      ++ (structured_operators W tools store
          ++ (retrieval_operators W tools store ++ media_operators W tools store (some backend)))

  registered : register_all worker_operators empty ≡ ok (registry_of worker_operators)
  unfolding register lookup insert invoke_model_spec read_artifact_spec
  registered = refl

  abbrev catalog : OperatorRegistry H
  catalog = registry_of (map (λ spec. (spec, unavailable_handler)) (catalog_specs tools.schemas))

  catalog-eq : build_operator_catalog tools.schemas unavailable_handler ≡ ok catalog
  unfolding build_operator_catalog register lookup insert invoke_model_spec read_artifact_spec
  catalog-eq = refl

  abbrev named : List OperatorSpec → Dict OperatorSpec
  named = map (λ spec. (spec.operator_id, spec))

  specs-Perm : Perm (specs (registry_of worker_operators)) (specs catalog)
  unfolding specs invoke_model_spec read_artifact_spec
  specs-Perm = Perm.cons _ (
      Perm.cons _ (
        Perm.trans
          (swap_parts (named (structured_operator_specs tools.schemas)) (
            named (
              bm25_retrieve_spec tools.schemas
              ∷ make_contact_sheet_spec tools.schemas
              ∷ sample_frames_spec tools.schemas
              ∷ extract_clip_spec tools.schemas
              ∷ [])))
          (Perm.cons _ (Perm.trans (Perm.swap _ _ _) (Perm.cons _ (Perm.swap _ _ _))))))

  -- The planner's catalog can be built, and a worker that has a media backend, once its app can be
  -- created, has registered the same operators as the catalog, with the same specifications, in
  -- another order.
  pub create_worker_app-catalog :
      (deployments : Dict (ModelDeployment (Backend W))) (r : OperatorRegistry (Handler S W))
      → create_worker_app W tools store deployments (some backend) limit ≡ ok r
      → (c : OperatorRegistry H) × (build_operator_catalog tools.schemas unavailable_handler ≡ ok c)
        × Perm (specs r) (specs c)
  unfolding create_worker_app
  create_worker_app-catalog deployments r h =
      let e : ok (registry_of worker_operators) ≡ ok r =
        sym registered
        ∙ passed (check_settings deployments limit) (register_all worker_operators empty) h in
      let e' : registry_of worker_operators ≡ r = cc e in
      (catalog, catalog-eq, subst (λ x. Perm (specs x) (specs catalog)) e' specs-Perm)
