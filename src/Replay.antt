-- ===== src/Replay.antt =====
-- crates/replay: the determinism engine.
pub mod Schedule
pub mod Scheduler
pub mod Rng
pub mod Trace
pub mod Runner
