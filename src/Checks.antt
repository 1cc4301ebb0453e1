-- ===== src/Checks.antt =====
-- internal/checks: the aggregation of probe results, and the scheduler of the probes.
pub mod Aggregator
pub mod Scheduler
pub mod Probe
mod Tests
