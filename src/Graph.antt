-- ===== src/Graph.antt =====
-- planning/graph.py: the control graph. Its nodes act on the planning state, the outside world and the
-- trace; langgraph's executor, which follows the edges, is `run_from` of Graph/Run.
mod Text
mod Trace
pub mod Nodes
pub mod Run
pub mod Logic
mod Emissions
pub mod Progress
mod Bytes
mod Steps
pub mod Termination
pub mod Returns
mod Tests
unfoldable pub use Text.{decimal, step_id_of}
unfoldable pub use Trace.*
