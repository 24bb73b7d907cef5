-- ===== src/Core.antt =====
-- crates/core: fault rules and their route globs, the virtual clock, layered configuration, and
-- the control plane's state.
pub mod Glob
pub mod Trace
pub mod Snapshot
pub mod Chrono
pub mod Bus
pub mod Clock
pub mod Float
pub mod Event
pub mod Fault
pub mod Config
pub mod State
