-- ===== src/Operators/Structured/Tests.antt =====
-- Records with one text field, on which the operators are run.
use infra_joint_planner.Prelude.{
  ℕ, ◌≡◌, refl, Bool, true, false, List, [], ◌∷◌, none, some, ◌==◌, eqb, leb, ltb, all, keep, arith,
}
use infra_joint_planner.Prelude.Dict.{lookup, insert}
use infra_joint_planner.Core.Errors.{ok, err, other_error}
use infra_joint_planner.Core.Json.{Float, Json, int, str, arr, Fields, end, field, get_field}
use infra_joint_planner.Core.Action.{SemanticAction}
use infra_joint_planner.Store.{StoredArtifact, create, check_stored_artifact}
use infra_joint_planner.Store.Memory.{Artifacts, put}
use infra_joint_planner.Store.Instances.{memory, memory-IsLawful}
use infra_joint_planner.Worker.{Held}
use infra_joint_planner.Operators.Records.{
  Codec, ProducedArtifact, array_of, load_records, store_json,
}
use infra_joint_planner.Operators.Records.Roundtrip.{store_json-load_records}
use infra_joint_planner.Operators.Structured.{Values, FilterArguments, TopKArguments, eq}
use infra_joint_planner.Operators.Structured.Groups.{
  Groups, group_records, check_groupable, add_record,
}
use infra_joint_planner.Operators.Structured.Handlers.{Parsers, filter_records}
use infra_joint_planner.Operators.Structured.Partition.{
  IsEquivalence, IsPartition, group_records-IsPartition,
}
use infra_joint_planner.Operators.Structured.Filtered.{
  Leaves, IsFiltered, filter_records-IsFiltered,
}

-- Two values are compared by what they are: integers by their magnitude, texts by themselves.
abbrev same_value : Json → Json → Bool
same_value (str s) (str t) = s == t
same_value (int a m) (int b n) = eqb m n
same_value _ _ = false

abbrev magnitude : Json → ℕ
magnitude (int b n) = n
magnitude _ = 0

abbrev zero_float : Float
zero_float = record { bits = 0 }

abbrev values : Values
values = record {
  equal = same_value;
  less = λ a b. some (ltb (magnitude a) (magnitude b));
  less_equal = λ a b. some (leb (magnitude a) (magnitude b));
  within = λ a b. none;
  same_key = λ a b. eqb (magnitude a) (magnitude b);
  to_float = λ sign n. some (record { bits = n });
  float_less = λ x y. ltb x.bits y.bits;
  float_sum = λ xs. zero_float;
  float_prod = λ xs. zero_float;
  float_subtract = λ x y. x;
  float_divide = λ x y. x;
  divide_by_length = λ x n. x;
  is_zero = λ x. eqb x.bits 0;
}

abbrev row : ℕ → Fields
row n = field "n" (int false n) end

abbrev rows : List Fields
rows = row 2 ∷ row 7 ∷ row 2 ∷ row 5 ∷ []

abbrev top_two : TopKArguments
top_two = record { field_name = "n"; k = 2; descending = true; output_artifact_id = "out" }

equivalence : IsEquivalence values.same_key
equivalence = record {
  reflexive = λ a. ground arith;
  symmetric = λ a b h. ground arith;
  transitive = λ a b c h k. ground arith;
}

abbrev grouped : Groups
grouped =
    (int false 2 ∷ [], row 2 ∷ row 2 ∷ [])
    ∷ (int false 7 ∷ [], row 7 ∷ [])
    ∷ (int false 5 ∷ [], row 5 ∷ [])
    ∷ []

grouped-eq : group_records values ("n" ∷ []) rows [] ≡ ok grouped
unfolding group_records check_groupable add_record get_field keep all
grouped-eq = refl

group_records-IsPartition_example : IsPartition values ("n" ∷ []) rows grouped
group_records-IsPartition_example =
    group_records-IsPartition values equivalence ("n" ∷ []) rows grouped grouped-eq

-- A codec for the list of rows.
abbrev codec : Codec
codec = record { loads = λ b. some (arr (array_of rows)); dumps = λ v. 1 ∷ []; sha256 = λ b. "sum" }

abbrev input : StoredArtifact
input = record {
  artifact_id = "in";
  media_type = "application/json";
  content = 1 ∷ [];
  sha256_hex = "sum";
}

abbrev held : Held Artifacts ℕ
held = record { store = ("in", input) ∷ []; world = 0 }

abbrev new_artifact : ProducedArtifact
new_artifact = record {
  artifact_id = "new";
  media_type = "application/json";
  size_bytes = 1;
  sha256_hex = "sum";
}

new-eq : (store_json codec memory "new" (arr (array_of rows)) held).0 ≡ ok new_artifact
unfolding store_json create check_stored_artifact put lookup insert
new-eq = refl

store_json-load_records_example :
    load_records codec memory "new" (store_json codec memory "new" (arr (array_of rows)) held).1
    ≡ (ok rows, (store_json codec memory "new" (arr (array_of rows)) held).1)
store_json-load_records_example =
    store_json-load_records codec memory (memory-IsLawful codec.sha256) "new" (arr (array_of rows))
      rows new_artifact held refl new-eq

abbrev filtering : FilterArguments
filtering = record { field_name = "n"; op = eq; value = int false 2; output_artifact_id = "twos" }

abbrev parsers : Parsers
parsers = record {
  filter = λ a. ok filtering;
  select_fields = λ a. err (other_error "ValidationError");
  derive_fields = λ a. err (other_error "ValidationError");
  aggregate_records = λ a. err (other_error "ValidationError");
  top_k = λ a. ok top_two;
  aggregate_artifacts = λ a. err (other_error "ValidationError");
}

abbrev action : SemanticAction
action = record { operator = "filter_records"; inputs = "in" ∷ []; arguments = end }

filter_records-IsFiltered_example :
    Leaves held.store
      (λ (output : Json).
        IsFiltered values parsers codec memory (memory-IsLawful codec.sha256) action held)
      (filter_records values parsers codec memory action held)
filter_records-IsFiltered_example =
    filter_records-IsFiltered values parsers codec memory (memory-IsLawful codec.sha256) action held

abbrev ranking : SemanticAction
ranking = record { operator = "top_k_records"; inputs = "in" ∷ []; arguments = end }
