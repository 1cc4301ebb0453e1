-- ===== src/Alerts.antt =====
-- internal/alerts: which transitions alert, and through which channels.
pub mod Dispatcher
pub mod Delivery
pub mod TestAlert
mod Tests
