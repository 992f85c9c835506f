-- ===== src/Processing/Server.antt =====
-- `BackgroundJobServer` of src/processing/server.rs.
pub mod Config
pub mod Backend
pub mod Loop
pub mod Spawning
pub mod Lifecycle
