-- ===== src/Operators/Catalog.antt =====
-- operators/catalog.py, and the specifications of operators/structured.py, operators/retrieval.py and
-- operators/media.py. pydantic's JSON schemas of the arguments are a parameter.
use infra_joint_planner.Prelude.{String, List, [], ◌∷◌, ◌++◌, map}
use infra_joint_planner.Core.Errors.{Result, ok, ◌>>=◌}
use infra_joint_planner.Core.Json.{str, obj, Fields, end, field}
use infra_joint_planner.Registry.{OperatorSpec, OperatorRegistry, empty, register}
use infra_joint_planner.Operators.Builtin.{
  natural, strings_schema, invoke_model_spec, read_artifact_spec,
}

-- `model_json_schema` of each class of arguments
pub record Schemas : Type 0 where
  pub filter : Fields
  pub select_fields : Fields
  pub derive_fields : Fields
  pub aggregate_records : Fields
  pub top_k : Fields
  pub aggregate_artifacts : Fields
  pub bm25 : Fields
  pub sample_frames : Fields
  pub extract_clip : Fields
  pub contact_sheet : Fields

abbrev produced_schema : Fields
produced_schema = field "$ref" (str "ProducedArtifact") end

abbrev at_least_one : Fields
at_least_one = strings_schema (field "minItems" (natural 1) end)

abbrev exactly_one : Fields
exactly_one = strings_schema (field "minItems" (natural 1) (field "maxItems" (natural 1) end))

-- `_operator_spec`
abbrev pub operator_spec : String → String → Fields → OperatorSpec
operator_spec operator_id description argument_schema = record {
  operator_id = operator_id;
  description = description;
  input_schema = at_least_one;
  argument_schema = argument_schema;
  output_schema = produced_schema;
  capability_requirements = "structured" ∷ [];
}

-- A dictionary of operators, each with its handler.
abbrev pub register_all :
    {H : Type 0} → List (OperatorSpec × H) → OperatorRegistry H → Result (OperatorRegistry H)
register_all [] r = ok r
register_all ((spec, handler) ∷ rest) r = register spec handler r >>= register_all rest

module _ (schemas : Schemas) where
  abbrev pub filter_spec : OperatorSpec
  filter_spec =
      operator_spec "filter_records" "Filter JSON records by one predicate." schemas.filter

  abbrev pub select_spec : OperatorSpec
  select_spec =
      operator_spec "select_fields" "Project selected fields from JSON records."
        schemas.select_fields

  abbrev pub derive_spec : OperatorSpec
  derive_spec =
      operator_spec "derive_fields" "Derive numeric fields without arbitrary code execution."
        schemas.derive_fields

  abbrev pub aggregate_spec : OperatorSpec
  aggregate_spec =
      operator_spec "aggregate_records" "Group and aggregate JSON records."
        schemas.aggregate_records

  abbrev pub top_k_spec : OperatorSpec
  top_k_spec = operator_spec "top_k_records" "Select top-k JSON records by a field." schemas.top_k

  abbrev pub concatenate_spec : OperatorSpec
  concatenate_spec =
      operator_spec "aggregate_artifacts" "Concatenate arrays from JSON artifacts."
        schemas.aggregate_artifacts

  abbrev pub structured_operator_specs : List OperatorSpec
  structured_operator_specs =
      filter_spec ∷ select_spec ∷ derive_spec ∷ aggregate_spec ∷ top_k_spec ∷ concatenate_spec ∷ []

  abbrev pub bm25_retrieve_spec : OperatorSpec
  bm25_retrieve_spec = record {
    operator_id = "bm25_retrieve";
    description = "Retrieve top-k documents with deterministic local BM25.";
    input_schema = exactly_one;
    argument_schema = schemas.bm25;
    output_schema = produced_schema;
    capability_requirements = "retrieval" ∷ [];
  }

  abbrev pub sample_frames_spec : OperatorSpec
  sample_frames_spec = record {
    operator_id = "sample_frames";
    description = "Sample video frames at a question-independent fixed interval.";
    input_schema = exactly_one;
    argument_schema = schemas.sample_frames;
    output_schema = field "type" (str "array") (field "items" (obj produced_schema) end);
    capability_requirements = "media.ffmpeg" ∷ [];
  }

  abbrev pub extract_clip_spec : OperatorSpec
  extract_clip_spec = record {
    operator_id = "extract_clip";
    description = "Extract a temporal clip from a video artifact.";
    input_schema = exactly_one;
    argument_schema = schemas.extract_clip;
    output_schema = produced_schema;
    capability_requirements = "media.ffmpeg" ∷ [];
  }

  abbrev pub make_contact_sheet_spec : OperatorSpec
  make_contact_sheet_spec = record {
    operator_id = "make_contact_sheet";
    description = "Arrange image artifacts into a deterministic JPEG contact sheet.";
    input_schema =
        strings_schema (field "minItems" (natural 1) (field "maxItems" (natural 64) end));
    argument_schema = schemas.contact_sheet;
    output_schema = produced_schema;
    capability_requirements = "media.image" ∷ [];
  }

  abbrev pub media_operator_specs : List OperatorSpec
  media_operator_specs = sample_frames_spec ∷ extract_clip_spec ∷ make_contact_sheet_spec ∷ []

  -- The specifications in the order of the catalog.
  abbrev pub catalog_specs : List OperatorSpec
  catalog_specs =
      invoke_model_spec
      ∷ read_artifact_spec
      ∷ bm25_retrieve_spec
      ∷ (media_operator_specs ++ structured_operator_specs)

  module _ {H : Type 0} (unavailable_handler : H) where
    unfoldable pub build_operator_catalog : Result (OperatorRegistry H)
    unfolding invoke_model_spec read_artifact_spec
    build_operator_catalog =
        register_all (map (λ spec. (spec, unavailable_handler)) catalog_specs) empty
