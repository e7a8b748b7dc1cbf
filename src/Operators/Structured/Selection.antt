-- ===== src/Operators/Structured/Selection.antt =====
-- operators/structured.py: what `top_k_records` selects.
use infra_joint_planner.Prelude.{◌≡◌, true, String, List, all}
use infra_joint_planner.Core.Json.{Json, Fields}
use infra_joint_planner.Operators.Structured.{Values, TopKArguments, single_input, has_field}
use infra_joint_planner.Operators.Structured.Handlers.{Parsers}
use infra_joint_planner.Core.Errors.{ok}
use infra_joint_planner.Core.Action.{SemanticAction}
use infra_joint_planner.Store.Interface.{ArtifactStore, IsLawful}
use infra_joint_planner.Worker.{Held}
use infra_joint_planner.Operators.Records.{Codec, load_records}
use infra_joint_planner.Operators.Structured.Filtered.{Produced}
use infra_joint_planner.Operators.Structured.Ranking.{IsTop, AreUniform}

module _ {S W : Type 0} (values : Values) (parsers : Parsers) (codec : Codec)
    (store : ArtifactStore S) (lawful : IsLawful codec.sha256 store) where
  -- What `top_k_records` has read and stored when it returns.
  pub record IsTopOf (action : SemanticAction) (h h' : Held S W) : Type 0 where
    pub arguments : TopKArguments
    pub input : String
    pub records : List Fields
    pub chosen : List Fields
    pub parsed : parsers.top_k action.arguments ≡ ok arguments
    pub one_input : single_input action ≡ ok input
    pub loaded : (load_records codec store input h).0 ≡ ok records
    pub present : all (has_field arguments.field_name) records ≡ true
    pub uniform : AreUniform values arguments.field_name records
    pub top : IsTop values arguments.field_name arguments.descending arguments.k records chosen
    pub stored : Produced codec store arguments.output_artifact_id chosen h'
