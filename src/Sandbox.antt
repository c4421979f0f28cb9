-- ===== src/Sandbox.antt =====
-- The sandboxes' side of the service (internal/sandbox).
pub mod Wire
