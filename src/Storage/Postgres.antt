-- ===== src/Storage/Postgres.antt =====
-- `PostgresStorage` (src/storage/postgres.rs) with the functions of install.sql that it calls. A
-- query is a function on the rows of its table, which an answer of the database may refuse.
pub mod Driver
pub mod Row
pub mod Schema
pub mod Jobs
pub mod Listing
pub mod Locker
pub mod Claim
pub mod Registry
pub mod Leases
