-- ===== src/Surfaces/Tests.antt =====
-- A worker that offers what the environment declares.
use infra_joint_planner.Prelude.{true, [], ◌∷◌}
use infra_joint_planner.Prelude.Dict.{Dict}
use infra_joint_planner.Core.Json.{end}
use infra_joint_planner.Core.State.{EnvironmentSpec}
use infra_joint_planner.Registry.{OperatorRegistry}
use infra_joint_planner.Api.{WorkerStateResponse}

abbrev environment : EnvironmentSpec
environment = record {
  agents = record { agent_id = "cloud"; device = "gpu"; capabilities = "model" ∷ "text" ∷ [] } ∷ [];
  deployments =
      record {
        deployment_id = "m";
        agent_id = "cloud";
        model_id = "vlm";
        modalities = "text" ∷ "image" ∷ [];
        context_window = 100;
        reserved_output_tokens = 20;
        image_token_cost = 50;
      }
      ∷ [];
  initial_placements = [];
  links = [];
}

abbrev registry : OperatorRegistry (Unit {0})
registry = record {
  bindings =
      (
        "ask",
        record {
          spec = record {
            operator_id = "ask";
            description = "asks the model";
            input_schema = end;
            argument_schema = end;
            output_schema = end;
            capability_requirements = "model" ∷ [];
          };
          handler = tt;
        },
      )
      ∷ [];
}

abbrev cloud : WorkerStateResponse
cloud = record {
  agent_id = "cloud";
  available = true;
  in_flight = 0;
  operators = "ask" ∷ [];
  deployments =
      record {
        deployment_id = "m";
        model_id = "vlm";
        modalities = "image" ∷ "text" ∷ [];
        context_window = 100;
        reserved_output_tokens = 20;
        image_token_cost = 50;
      }
      ∷ [];
  artifacts = [];
}

abbrev by_agent : Dict WorkerStateResponse
by_agent = ("cloud", cloud) ∷ []
