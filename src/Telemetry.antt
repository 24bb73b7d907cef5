-- ===== src/Telemetry.antt =====
-- crates/telemetry/src: the faults of what leaves the process (chaos.rs) and of the trace context
-- that arrives (propagation.rs), and the collector (lib.rs).
pub mod Chaos
pub mod Metrics
pub mod Collector
pub mod Propagation
