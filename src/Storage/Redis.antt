-- ===== src/Storage/Redis.antt =====
-- The operations on jobs of `RedisStorage` (src/storage/redis.rs), with their Lua scripts, on the keys
-- that they use. A script runs as one step; an error of the connection is left out.
pub mod Indices
pub mod Writes
pub mod Fetch
pub mod Claim
