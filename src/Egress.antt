-- ===== src/Egress.antt =====
-- The gateway that sandboxes reach the internet through (internal/egress).
pub mod Hello
pub mod Policy
mod Examples
