-- ===== src/Core.antt =====
-- core/: the typed contracts between the components, and the exceptions.
pub mod Errors
pub mod Json
pub mod Action
pub mod State
pub mod Task
mod Tests
