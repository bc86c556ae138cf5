-- ===== src/Engine.antt =====
-- The execution engine: what it dispatches, and what becomes of a dispatched task.
pub mod TaskId
pub mod Ready
pub mod Task
pub mod Pool
pub mod Agree
mod Tests
