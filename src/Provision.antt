-- ===== src/Provision.antt =====
-- The steps that provision a container: internal/engine/provision.
pub mod Json
pub mod Home
pub mod Settings
pub mod Belt
pub mod Survives
pub mod Install
pub mod Plugins
pub mod Phases
mod Examples
