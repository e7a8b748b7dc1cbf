-- ===== src/Planner/Tests.antt =====
-- Two runs that only their placement tells apart, and a model that proposes an action.
use infra_joint_planner.Prelude.{ℕ, String, ◌≡◌, refl, List, [], ◌∷◌, Option, none, some}
use infra_joint_planner.Prelude.Dict.{lookup}
use infra_joint_planner.Prelude.Sorting.{sort_by, insert_sorted}
use infra_joint_planner.Core.Errors.{Exception, Message, ok, traverse}
use infra_joint_planner.Core.Json.{Json, null, Fields, end, get_field, names_array}
use infra_joint_planner.Core.Action.{
  target_agent, PhysicalDecision, JointDecision, action, check_semantic_action,
  check_physical_decision, target_matches_policy,
}
use infra_joint_planner.Core.Task.{TaskContract, short_text}
use infra_joint_planner.Registry.{
  OperatorRegistry, SchemaError, planner_tool, planner_tools, binding, validate_action,
  validate_instance,
}
use infra_joint_planner.Model.{ModelRequest, ModelCompletion}
use infra_joint_planner.Executor.{ExecutionResult}
use infra_joint_planner.Effects.{Effect}
use infra_joint_planner.Planner.{PlannerOutcome, BlindPlannerContext}
use infra_joint_planner.Planner.Prompts.{
  Dumps, render_planner_prompt, render_finalizer_prompt, without_read_artifact,
}
use infra_joint_planner.Planner.Decide.{
  BlindProposal, action_proposal, automatic, decide_proposal, decide,
}
use infra_joint_planner.Planner.Blindness.{
  seen, render_planner_prompt-blind, render_finalizer_prompt-blind,
}
use infra_joint_planner.Planner.Placement.{IsAcceptable, decide-IsAcceptable}

abbrev dumps : Dumps
dumps = record {
  compact = λ j. "c";
  compact_sorted = λ j. "s";
  semantic = λ a. null;
  contract = λ c. null;
  observation = λ o. null;
  choices = λ c. "[]";
  schema = λ s. "{}";
}

abbrev registry : OperatorRegistry (Unit {0})
registry = record {
  bindings =
      (
        "read",
        record {
          spec = record {
            operator_id = "read";
            description = "reads a document";
            input_schema = end;
            argument_schema = end;
            output_schema = end;
            capability_requirements = [];
          };
          handler = tt;
        },
      )
      ∷ [];
}

abbrev accepts : Fields → Json → List SchemaError
accepts schema instance' = []

abbrev task : Option String → String → TaskContract
task source_ref evaluator_id = record {
  task_id = "t";
  benchmark_id = "b";
  objective = "read";
  artifacts =
      record {
        artifact_id = "doc";
        logical_type = "document";
        media_type = "text/plain";
        size_bytes = 3;
        source_ref = source_ref;
      }
      ∷ [];
  output_contract = record { format = short_text; schema_definition = none; choices = none };
  evaluator_id = evaluator_id;
}

abbrev reads : PhysicalDecision → JointDecision
reads physical = action (record {
  semantic = record { operator = "read"; inputs = "doc" ∷ []; arguments = end };
  physical = physical;
})

abbrev on_edge : PhysicalDecision
on_edge = record {
  policy = target_agent;
  target_agent_id = some "edge";
  target_deployment_id = none;
}

abbrev ran_on : String → ℕ → ExecutionResult
ran_on agent_id latency = record {
  operator = "read";
  agent_ids = agent_id ∷ [];
  deployment_id = none;
  output = end;
  operator_latency_ms = record { bits = latency };
  model_telemetry = none;
  transfers = [];
}

render_planner_prompt-blind_example :
    render_planner_prompt dumps registry
      (seen dumps (task none "e") (reads automatic ∷ []) (ran_on "cloud" 0 ∷ []) 2)
    ≡ render_planner_prompt dumps registry
        (seen dumps (task (some "file") "f") (reads on_edge ∷ []) (ran_on "edge" 9 ∷ []) 2)
render_planner_prompt-blind_example =
    render_planner_prompt-blind dumps registry (task none "e") (task (some "file") "f")
      (reads automatic ∷ []) (reads on_edge ∷ []) (ran_on "cloud" 0 ∷ []) (ran_on "edge" 9 ∷ []) 2
      (record {
        task_id = refl;
        benchmark_id = refl;
        objective = refl;
        artifacts = (
          record { artifact_id = refl; logical_type = refl; media_type = refl; size_bytes = refl },
          tt,
        );
        output_contract = refl;
      })
      (refl, tt) (record { operator = refl; output = refl }, tt)

render_finalizer_prompt-blind_example :
    render_finalizer_prompt dumps (task none "e") (reads automatic ∷ []) (ran_on "cloud" 0 ∷ [])
    ≡ render_finalizer_prompt dumps
        (task (some "file") "f")
        (reads on_edge ∷ [])
        (ran_on "edge" 9 ∷ [])
render_finalizer_prompt-blind_example =
    render_finalizer_prompt-blind dumps (task none "e") (task (some "file") "f")
      (reads automatic ∷ []) (reads on_edge ∷ []) (ran_on "cloud" 0 ∷ []) (ran_on "edge" 9 ∷ [])
      (record {
        task_id = refl;
        benchmark_id = refl;
        objective = refl;
        artifacts = (
          record { artifact_id = refl; logical_type = refl; media_type = refl; size_bytes = refl },
          tt,
        );
        output_contract = refl;
      })
      (refl, tt) (record { operator = refl; output = refl }, tt)

abbrev completion : ModelCompletion
completion = record {
  text = "{}";
  telemetry = record {
    service_latency_ms = record { bits = 0 };
    input_tokens = none;
    output_tokens = none;
    finish_reason = none;
  };
}

abbrev invoke : ModelRequest → Effect ℕ ModelCompletion
invoke request w = (ok completion, w)

abbrev parse : String → Option BlindProposal
parse text = some (action_proposal "read" ("doc" ∷ []) end)

abbrev show : Exception → Message
show e = []

abbrev context : BlindPlannerContext
context = seen dumps (task none "e") [] [] 2

abbrev outcome : PlannerOutcome
outcome = record { decision = reads automatic; model_telemetry = some completion.telemetry }

decided : (decide {W = ℕ} accepts show parse registry dumps invoke context 0).0 ≡ ok outcome
unfolding decide decide_proposal render_planner_prompt planner_tools planner_tool
    without_read_artifact binding validate_action validate_instance check_semantic_action
    check_physical_decision target_matches_policy traverse sort_by insert_sorted lookup get_field
    names_array
decided = refl

decide-IsAcceptable_example : IsAcceptable accepts registry (reads automatic)
decide-IsAcceptable_example =
    decide-IsAcceptable accepts show parse registry dumps invoke context 0 outcome decided
