-- ===== src/Pipeline.antt =====
-- The pipeline that runs the launch steps (internal/engine/pipeline).
pub mod Types
pub mod Build
pub mod Step
pub mod Run
pub mod Attempt
mod Examples
mod StepExamples
