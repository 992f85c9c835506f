-- ===== src/Core.antt =====
-- The job model of src/core: job states, jobs, recurring templates and server registrations.
pub mod JobState
pub mod Graph
pub mod Job
pub mod Transitions
pub mod Recurring
pub mod ServerInfo
mod Examples
