-- ===== src/Queue.antt =====
-- The task queue (workflows/queue).
pub mod Choice
pub mod Values
pub mod Types
pub mod Index
pub mod Log
pub mod Snapshot
pub mod Compaction
pub mod Store
pub mod Recovery
pub mod Integrity
pub mod Tests
