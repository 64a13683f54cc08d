-- ===== src/Steps.antt =====
-- The steps of a launch (internal/engine/steps).
pub mod Batch
pub mod Launch
pub mod Forms
pub mod Review
mod Examples
