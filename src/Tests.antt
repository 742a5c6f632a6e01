-- ===== src/Tests.antt =====
-- Concrete inputs at which the theorems apply.
pub mod Fixtures
pub mod Database
mod Storing
mod Scheduling
mod Pinging
mod Delivering
mod Serving
mod Assigning
mod Mailing
mod Posting
mod Migrating
mod Running
mod Starting
