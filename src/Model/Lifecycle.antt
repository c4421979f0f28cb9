-- ===== src/Model/Lifecycle.antt =====
-- internal/model/task_lifecycle.go: which change may replace a saved task by another.
pub mod Evidence
pub mod Change
pub mod Cancel
pub mod Accepted
pub mod Growth
pub mod Sound
pub mod Run
pub mod Diagram
pub mod Cancellation
pub mod Settle
mod Examples
