-- ===== src/Queue.antt =====
-- crates/queue: jobs, their stores, and the scheduler.
pub mod Job
pub mod Store
pub mod Memory
pub mod Scheduler
pub mod Redis
