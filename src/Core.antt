-- ===== src/Core.antt =====
-- crates/core: the traits and data that the other crates share.
pub mod Error
pub mod Clock
pub mod Adapter
pub mod Scenario
pub mod Fault
