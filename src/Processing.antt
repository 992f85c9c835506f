-- ===== src/Processing.antt =====
-- src/processing: retry policy, workers, middleware, the job processor and the background loops.
pub mod Retry
pub mod Worker
pub mod Middleware
pub mod Store
pub mod Handlers
pub mod Processor
pub mod Scheduler
pub mod Cleanup
pub mod Heartbeat
pub mod Poller
pub mod Builder
pub mod Server
pub mod Metrics
mod Examples
