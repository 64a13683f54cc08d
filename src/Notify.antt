-- ===== src/Notify.antt =====
-- The outbox of notifications and the watcher that delivers them (internal/engine/notify).
pub mod Queue
pub mod Watcher
pub mod Prune
pub mod Attempts
mod Examples
