-- ===== src/Storage.antt =====
-- src/storage: the configuration, the errors and the three backends.
pub mod Config
pub mod Errors
pub mod Memory
pub mod Postgres
pub mod Redis
mod Examples
