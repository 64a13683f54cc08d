-- ===== src/App.antt =====
-- The terminal interface's state machine: internal/tui/app, with the part of
-- cmd/mirabilis/facade.go that it calls.
pub mod State
pub mod Menu
pub mod Launch
pub mod Events
pub mod Update
pub mod Single
pub mod Review
pub mod Path
pub mod Terminal
mod Examples
