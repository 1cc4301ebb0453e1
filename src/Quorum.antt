-- ===== src/Quorum.antt =====
-- internal/quorum/manager.go: heartbeats and master election.
pub mod Manager
pub mod Node
mod Tests
