-- ===== src/Operators/Tests.antt =====
-- A worker that registers its operators.
use Prim.Native.String.{len}
use mathlib.Core.List.{Perm}
use infra_joint_planner.Prelude.{
  ℕ, ◌≡◌, refl, String, true, false, [], ◌∷◌, Option, none, some, length, all,
}
use infra_joint_planner.Prelude.Text.{subset}
use infra_joint_planner.Prelude.Dict.{lookup, insert}
use infra_joint_planner.Core.Errors.{Result, ok, err, other_error}
use infra_joint_planner.Core.Json.{Float, Fields, end}
use infra_joint_planner.Model.{Bytes}
use infra_joint_planner.Registry.{OperatorRegistry, specs, register}
use infra_joint_planner.Store.Memory.{Artifacts}
use infra_joint_planner.Store.Instances.{memory}
use infra_joint_planner.Surfaces.{same_set}
use infra_joint_planner.Effects.{pure}
use infra_joint_planner.Worker.{Handler}
use infra_joint_planner.Operators.Builtin.{invoke_model_spec, read_artifact_spec}
use infra_joint_planner.Operators.Catalog.{build_operator_catalog}
use infra_joint_planner.Operators.Media.{MediaBackend}
use infra_joint_planner.Operators.Media.Handlers.{Scratch}
use infra_joint_planner.Operators.Registration.{
  Toolbox, create_worker_app, create_worker_app-catalog, worker_operators, registry_of,
}

abbrev refused : {A : Type 0} → Fields → Result A
refused a = err (other_error "ValidationError")

abbrev zero_float : Float
zero_float = record { bits = 0 }

abbrev no_text : Bytes → Option String
no_text b = none

no_text-length : (b : Bytes) (t : String) → no_text b ≡ some t → len t ≡ length b
no_text-length b t h = absurd (cc)

abbrev tools : Toolbox ℕ
tools = record {
  schemas = record {
    filter = end;
    select_fields = end;
    derive_fields = end;
    aggregate_records = end;
    top_k = end;
    aggregate_artifacts = end;
    bm25 = end;
    sample_frames = end;
    extract_clip = end;
    contact_sheet = end;
  };
  values = record {
    equal = λ a b. false;
    less = λ a b. none;
    less_equal = λ a b. none;
    within = λ a b. none;
    same_key = λ a b. false;
    to_float = λ s n. none;
    float_less = λ x y. false;
    float_sum = λ xs. zero_float;
    float_prod = λ xs. zero_float;
    float_subtract = λ x y. x;
    float_divide = λ x y. x;
    divide_by_length = λ x n. x;
    is_zero = λ x. true;
  };
  scoring = record {
    tokenize = λ t. t ∷ [];
    average = λ n m. zero_float;
    idf = λ n m. zero_float;
    term = λ i f k b l a. zero_float;
    plus = λ x y. x;
    zero_score = zero_float;
    negative_less = λ x y. false;
  };
  parsers = record {
    filter = refused;
    select_fields = refused;
    derive_fields = refused;
    aggregate_records = refused;
    top_k = refused;
    aggregate_artifacts = refused;
  };
  media_parsers = record {
    sample_frames = refused;
    extract_clip = refused;
    contact_sheet = refused;
  };
  bm25_parser = refused;
  codec = record { loads = λ b. none; dumps = λ v. []; sha256 = λ b. "sum" };
  imaging = record { thumbnail = λ b w h. none; jpeg = λ s. [] };
  utf8 = record { decode = no_text; decode-length = no_text-length };
}

abbrev backend : MediaBackend (Scratch ℕ)
backend = record { sample_frames = λ i o e m. pure tt; extract_clip = λ i o s d. pure tt }

abbrev registry : OperatorRegistry (Handler Artifacts ℕ)
registry = registry_of (worker_operators {H = ℕ} tools memory backend 10 0)

created : create_worker_app ℕ tools memory [] (some backend) 10 ≡ ok registry
unfolding create_worker_app same_set subset all register lookup insert invoke_model_spec
    read_artifact_spec
created = refl

create_worker_app-catalog_example :
    (c : OperatorRegistry ℕ) × (build_operator_catalog tools.schemas 0 ≡ ok c)
    × Perm (specs registry) (specs c)
create_worker_app-catalog_example =
    create_worker_app-catalog tools memory backend 10 0 [] registry created
