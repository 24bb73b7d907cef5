-- ===== src/Mail.antt =====
-- The mail surface, crates/mail: who may be sent to, the inbox, the sender and its configuration.
pub mod Allow
pub mod Inbox
pub mod Mailer
pub mod Env
