-- ===== src/Storage/Memory.antt =====
-- `MemoryStorage` (src/storage/memory.rs). Every operation that holds a write guard over its whole
-- body is one step on the state; `enqueue`, which does not, has a module for its two steps.
pub mod State
pub mod Jobs
pub mod Claim
pub mod Locker
pub mod Recurring
pub mod Servers
pub mod Leases
pub mod Ready
pub mod Invariant
pub mod Steps
pub mod Fetch
