-- ===== src/Cli.antt =====
-- crates/cli: the `blackswan` binary.
pub mod Config
pub mod Build
pub mod Main
