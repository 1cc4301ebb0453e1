-- ===== src/Replicate.antt =====
-- internal/replicate/replicator.go: mutations of the configuration and their way to the master.
pub mod Mutation
pub mod Atomic
pub mod Network
pub mod Keys
pub mod Replicator
mod Tests
