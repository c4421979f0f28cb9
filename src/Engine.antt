-- ===== src/Engine.antt =====
-- The orchestrator's own rules (internal/engine).
pub mod Actions
pub mod Plan
mod Examples
