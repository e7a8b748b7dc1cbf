-- ===== src/Operators.antt =====
-- operators/: the operators of the workers, as handlers over a store.
pub mod Builtin
pub mod Records
pub mod Structured
pub mod Media
pub mod Retrieval
pub mod Catalog
pub mod Registration
mod Tests
