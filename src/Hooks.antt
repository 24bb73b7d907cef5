-- ===== src/Hooks.antt =====
-- The webhook surface, crates/hooks: signatures, the outbound sender, and the capture inbox.
pub mod Sign
pub mod Outbound
pub mod Inbound
