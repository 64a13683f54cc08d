-- ===== src/Config.antt =====
-- The configuration of a repository (internal/engine/config/config.go).
pub mod Env
pub mod Catalog
pub mod Loadout
pub mod Tune
mod Examples
