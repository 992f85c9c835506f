-- ===== src/Storage/Config.antt =====
-- `MemoryConfig` of src/storage/config.rs. `Duration::from_secs(300)` is in milliseconds.
pub mod Redis
pub mod Postgres
use qml.Base.{ℕ, Bool, true, Option, none, some}

pub record MemoryConfig : Type 0 where
  pub max_jobs : Option ℕ
  pub auto_cleanup : Bool
  pub cleanup_interval : Option ℕ

unfoldable pub default : MemoryConfig
default = record { max_jobs = some 10_000; auto_cleanup = true; cleanup_interval = some 300_000 }

unfoldable pub new : MemoryConfig
unfolding default
new = default

unfoldable pub with_max_jobs : MemoryConfig → ℕ → MemoryConfig
with_max_jobs c max_jobs = record c { max_jobs = some max_jobs }

unfoldable pub unlimited : MemoryConfig → MemoryConfig
unlimited c = record c { max_jobs = none }

unfoldable pub with_auto_cleanup : MemoryConfig → Bool → MemoryConfig
with_auto_cleanup c enabled = record c { auto_cleanup = enabled }

unfoldable pub with_cleanup_interval : MemoryConfig → ℕ → MemoryConfig
with_cleanup_interval c interval = record c { cleanup_interval = some interval }
