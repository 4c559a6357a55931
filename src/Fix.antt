-- ===== src/Fix.antt =====
-- crates/adapters/src/fix: the FIX protocol adapter.
pub mod Fields
pub mod Message
pub mod Framing
pub mod Adapters
pub mod Proxy
pub mod Injector
mod Tests
