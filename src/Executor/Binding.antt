-- ===== src/Executor/Binding.antt =====
-- runtime/executor.py: the part of `execute` that talks to no worker.
use infra_joint_planner.Prelude.{String, List, [], ◌∷◌}
use infra_joint_planner.Prelude.Dict.{Dict, lookup}
use infra_joint_planner.Core.Errors.{
  words, name, Result, ok, err, ◌>>=◌, ◌>>◌, not_implemented_error, runtime_error, or_raise,
}
use infra_joint_planner.Core.Json.{Json}
use infra_joint_planner.Core.Action.{JointAction}
use infra_joint_planner.Core.State.{EnvironmentSpec, InfrastructureState}
use infra_joint_planner.Registry.{OperatorRegistry, Validator, binding, validate_action}
use infra_joint_planner.Resolver.{ResolvedBinding, resolve}
use infra_joint_planner.Api.{WorkerClient}

abbrev pub single_agent : List String → Result String
single_agent (agent_id ∷ []) = ok agent_id
single_agent _ =
    err (not_implemented_error (words "parallel worker execution is not part of M1" ∷ []))

module _ {W H : Type 0} (iter_errors : Validator) (render : Json → String)
    (registry : OperatorRegistry H) (environment : EnvironmentSpec)
    (worker_clients : Dict (WorkerClient W)) where
  -- Validation, placement, and the client of the one chosen agent.
  unfoldable pub bind_action :
      JointAction → InfrastructureState → Result (ResolvedBinding × WorkerClient W)
  bind_action action infrastructure = do
    validate_action iter_errors action.semantic registry
    operator ← binding action.semantic.operator registry
    resolved ←
        resolve render action.physical action.semantic operator.spec environment infrastructure
    agent_id ← single_agent resolved.agent_ids
    worker ←
        or_raise
          (runtime_error (words "no worker client configured for agent: " ∷ name agent_id ∷ []))
          (lookup agent_id worker_clients)
    ok (resolved, worker)
