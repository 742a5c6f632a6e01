-- ===== src/Handler.antt =====
-- internal/handler: the HTTP handlers.
pub mod Ping
pub mod Check
pub mod Channel
pub mod Dashboard
