-- ===== src/Queue/Scheduler/Life.antt =====
-- The life of a job over many passes of the scheduler.
pub mod Views
pub mod Attempts
pub mod Failing
