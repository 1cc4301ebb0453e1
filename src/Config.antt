-- ===== src/Config.antt =====
-- internal/config/cluster.go: the replicated cluster configuration.
pub mod Types
pub mod Cluster
pub mod Node
pub mod Paths
mod Tests
