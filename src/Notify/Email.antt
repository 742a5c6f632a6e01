-- ===== src/Notify/Email.antt =====
-- internal/notify/email.go: the e-mail notifier.
pub mod Content
pub mod Message
pub mod Smtp
pub mod Credentials
pub mod Delivery
pub mod Sending
