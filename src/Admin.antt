-- ===== src/Admin.antt =====
-- The handlers of crates/admin/src/lib.rs: what the operator's requests do to the components, and
-- what is answered.
pub mod Control
pub mod Rules
pub mod Jobs
pub mod Due
pub mod Mail
pub mod Hooks
pub mod Sockets
pub mod Snapshots
pub mod Runs
