-- ===== src/Model.antt =====
-- The records of the service and the rules on them (internal/model).
pub mod Enums
pub mod Types
pub mod Task
pub mod Status
pub mod Sessions
pub mod Reviews
pub mod Maintenance
pub mod Sandbox
pub mod PullRequests
pub mod Samples
pub mod Lifecycle
