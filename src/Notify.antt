-- ===== src/Notify.antt =====
-- internal/notify and internal/netutil: delivering the alerts.
pub mod Ip
pub mod Ssrf
pub mod Worker
pub mod Email
pub mod Json
pub mod Client
pub mod Posting
pub mod Slack
pub mod Webhook
