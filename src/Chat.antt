-- ===== src/Chat.antt =====
-- The chat surface of the service (internal/chat).
pub mod Confirm
