-- ===== src/Cli.antt =====
-- internal/cli: setting up a node, and joining a cluster with a token.
pub mod Bootstrap
pub mod Join
pub mod Update
pub mod Alerts
pub mod Checks
mod Tests
