-- ===== src/Main.antt =====
-- main.go: what run puts together.
pub mod Notifiers
pub mod Mux
pub mod Routes
pub mod Serve
pub mod Access
pub mod Requests
pub mod Pings
pub mod Program
