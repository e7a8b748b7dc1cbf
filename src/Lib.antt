-- ===== src/Lib.antt =====
-- The joint planner: a planner proposes actions for a task, a resolver places each on an agent or a
-- model deployment, an executor brings the inputs there and runs it, and a graph repeats this within a
-- budget of decisions, then finalizes and evaluates the answer.
--
-- The modules, and the code that each is about:
-- - Core (src/infra_joint/core/): Core/Action, Core/State and Core/Task hold the contracts as records;
--   `check_…`, or the validator's own name, is what a constructor validates. Core/Errors has the
--   exceptions as values, and `Result` for code that may raise. Core/Json has JSON values.
-- - Registry (src/infra_joint/operators/registry.py): `OperatorRegistry` with its methods as functions.
-- - Resolver (src/infra_joint/runtime/resolver.py): `DeterministicResolver.resolve`, with
--   `_resolve_model` as `resolve_model` and `_model_request_error` as `model_request_error`. Python's
--   sets are lists here; each use of one is by membership, or takes a least element. The inputs'
--   locations are looked up once.
-- - Model (src/infra_joint/worker/model_backend.py): requests, their preflight, and the
--   call's arguments. Model/Backends has `StaticModelBackend` and `OpenAICompatibleModelBackend`, whose
--   service is a parameter; Model/Preflight is about the preflight.
-- - Api (src/infra_joint/worker/server.py, src/infra_joint/runtime/client.py): contracts of the
--   workers, and the interface of a client.
-- - Worker (src/infra_joint/worker/server.py): the handlers of `create_worker_app` over a store and a
--   world. Worker/Artifacts has those that give, take and pull an artifact, Worker/Execute
--   `invoke_model` and `execute`; Worker/Transfers, Worker/Calls, Worker/Failures and Worker/Answers
--   are about them. The closure's variables are the record `Server`, with `in_flight`.
-- - Client (src/infra_joint/runtime/client.py): `HttpWorkerClient`; Client/Served is about a client
--   together with a worker.
-- - Fetcher (src/infra_joint/worker/artifact_fetcher.py): `HttpArtifactFetcher`.
-- - Operators (src/infra_joint/operators/): Operators/Records has artifacts.py, Operators/Structured
--   structured.py with its groups in Structured/Groups and its handlers in Structured/Handlers,
--   Operators/Retrieval retrieval.py, Operators/Media media.py with the contact sheet in Media/Sheet and
--   the handlers in Media/Handlers, Operators/Builtin and Operators/Catalog the specifications, and
--   Operators/Registration what a worker registers. Structured/Ranking, Structured/Selection,
--   Structured/Partition, Structured/Filtered, Media/Layout and Records/Roundtrip are about them.
-- - Effects: code that acts on a world `W` and may raise, for Executor, Graph, Worker and Operators.
--   Concurrency is not modelled.
-- - Executor (src/infra_joint/runtime/executor.py): `RuntimeExecutor.execute`; Executor/Binding is its
--   part that talks to no worker, and Executor/Transfers is about the inputs that it moves.
-- - Evaluation (src/infra_joint/evaluation/evaluator.py): the strict choice evaluator.
-- - Planner (src/infra_joint/planning/planner.py, src/infra_joint/planning/finalize.py): what a blind
--   planner sees, with the prompts in Planner/Prompts, and the planners and finalizers in
--   Planner/Decide; Planner/Blindness and Planner/Placement are about them.
-- - Graph (src/infra_joint/planning/graph.py): Graph/Nodes has the nodes and edges, Graph/Run the loop
--   and `PlanningGraph.run`, Graph/Trace the records and the events, Graph/Logic and
--   Graph/Emissions the proof rules for code that emits events, Graph/Progress what holds when a node
--   begins, Graph/Steps each node by these rules, Graph/Termination the loop, and Graph/Returns `run`.
-- - Store (src/infra_joint/worker/artifact_store.py): artifacts, with `InMemoryArtifactStore` in
--   Store/Memory and `FileArtifactStore` in Store/Files. Store/Interface is the protocol with the
--   contract that its users rely on, and Store/Instances has both stores keep it.
-- - Surfaces (src/infra_joint/infrastructure/validation.py): the validation of what the workers report;
--   Surfaces/Validate asks them.
-- - Observer (src/infra_joint/infrastructure/observer.py): the snapshot from the workers' answers, with
--   `LiveWorkerObserver.observe` as `observe`.
-- - Benchmarks (src/infra_joint/benchmarks/base.py): what an adapter prepares, and the assessment of its
--   validity.
-- - Runner (src/infra_joint/experiments/runner.py, src/infra_joint/config.py): `_materialize` as
--   `materialize`, and `_failure` as `run_failure`; Runner/Delivery is about the transfers.
-- - Prelude: lists, texts, sorting and dictionaries.
--
-- Parameters, since their code is elsewhere: the JSON-Schema validator (the errors it reports), what
-- pydantic decodes and the JSON schemas that it makes, Python's `str` of a JSON value or an exception,
-- the UTF-8 decoder (whose result is as long in UTF-8 as its input), base64, a token counter,
-- `json.loads`, `json.dumps` and `model_dump`, the decoder of a planner's answer, SHA-256, the codec of
-- an artifact's metadata, the clocks and `uuid4`, the arithmetic and the comparisons of values where
-- floats occur, the parser of URLs, HTTP clients, processes, and Pillow (whose `thumbnail` makes no image
-- larger than asked for).
-- Texts are byte sequences in UTF-8, so the length of a text is the number of its encoded bytes, and
-- the order of texts by code point is the order of the bytes. A text has no lone surrogate, so that
-- encoding one does not raise.
--
-- Bounds: langgraph's loop is `run_from` with the number of nodes it may run as an argument. Three for
-- each planning step and three more are enough, since each step is an observation, a plan and an
-- execution, and the end is an observation, the finalization and the evaluation. Integers are
-- Python's, without a bound.
--
-- Not modelled: HTTP itself and processes, requests to one worker that overlap in time, crashes between
-- writes, what `sorted` does with values that have no order (NaN), the benchmark adapters,
-- the experiment runner's `run` with the files that it writes, the decoding of configuration files, and
-- the command line.
pub mod Prelude
pub mod Core
pub mod Registry
pub mod Resolver
pub mod Model
pub mod Effects
pub mod Api
pub mod Executor
pub mod Evaluation
pub mod Planner
pub mod Graph
pub mod Store
pub mod Surfaces
pub mod Observer
pub mod Worker
pub mod Fetcher
pub mod Client
pub mod Benchmarks
pub mod Runner
pub mod Operators
