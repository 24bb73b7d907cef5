-- ===== src/Examples.antt =====
-- Concrete data, runs of the definitions, and the theorems applied to them.
pub mod Data
pub mod Redis
pub mod Inbox
pub mod Stream
pub mod Admin
pub mod Saved
pub mod Bus
pub mod Boot
pub mod Core
pub mod Mail
pub mod Queue
pub mod Http
pub mod Items
pub mod Hooks
pub mod Telemetry
pub mod Ws
