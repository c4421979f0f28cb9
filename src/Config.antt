-- ===== src/Config.antt =====
-- The saved policy of one repository (internal/config).
pub mod Types
pub mod Identity
pub mod Paths
