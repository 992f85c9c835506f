-- ===== src/Dashboard.antt =====
-- src/dashboard: the service behind the routes.
pub mod Service
pub mod Auth
pub mod Csrf
pub mod Details
pub mod Routes
mod Examples
