-- ===== src/Worker/Calls.antt =====
-- worker/server.py: when `invoke_model` calls a model, and with what.
use infra_joint_planner.Prelude.{ℕ, String, ◌≡◌, ◌⊎◌, List, Option}
use infra_joint_planner.Prelude.Dict.{Dict}
use infra_joint_planner.Core.Errors.{Exception, Message, Result, ok}
use infra_joint_planner.Core.Json.{Fields}
use infra_joint_planner.Core.Action.{SemanticAction}
use infra_joint_planner.Model.{Decoder, ModelCallTelemetry, ModelDeployment}
use infra_joint_planner.Store.{StoredArtifact}
use infra_joint_planner.Store.Interface.{ArtifactStore}
use infra_joint_planner.Effects.{pure, ◌>>=◌, ◌>>◌, for_each, continue}
use infra_joint_planner.Worker.{Held, Backend, get_stored}
use infra_joint_planner.Worker.Execute.{
  answer_with, preflight, request_of, deployment_for, prompt_for, completed,
}

module _ {S W : Type 0} (store : ArtifactStore S) where
  module _ (deployments : Dict (ModelDeployment (Backend W))) (utf8 : Decoder)
      (str_of : Exception → Message) (class_name : Exception → String) where
    -- The call that an action makes: of the deployment that it names, with its prompt and the
    -- artifacts that the store has under its inputs, after a preflight that passed.
    pub record IsCall (action : SemanticAction) (deployment_id : Option String) (h : Held S W)
        (outcome : Result (Fields × ModelCallTelemetry) × Held S W) : Type 0 where
      pub deployment : ModelDeployment (Backend W)
      pub prompt : String
      pub artifacts : List StoredArtifact
      pub tokens : ℕ
      pub named : deployment_for deployments deployment_id ≡ ok deployment
      pub prompted : prompt_for action ≡ ok prompt
      pub loaded : (for_each (get_stored store) action.inputs h).0 ≡ ok artifacts
      pub fits : preflight utf8 deployment (request_of deployment prompt artifacts) ≡ ok tokens
      pub outcome_eq :
          outcome
          ≡ continue
              (
                completed str_of class_name
                    (deployment.backend (request_of deployment prompt artifacts) h.world).0,
                record {
                  store = h.store;
                  world = (deployment.backend (request_of deployment prompt artifacts) h.world).1;
                },
              )
              (λ completion. pure (answer_with completion))

    module _ (action : SemanticAction) (deployment_id : Option String) (h : Held S W) where
      abbrev Told : Result (Fields × ModelCallTelemetry) × Held S W → Type 0
      Told outcome = (outcome.1 ≡ h) ⊎ IsCall action deployment_id h outcome
