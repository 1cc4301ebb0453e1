-- ===== src/Daemon.antt =====
-- internal/daemon: how a new node enrolls, and how the configuration reaches the trust store.
pub mod Enroll
pub mod Status
pub mod Tokens
pub mod Control
pub mod Dispatch
pub mod Watcher
pub mod Results
pub mod Handlers
pub mod New
mod Tests
