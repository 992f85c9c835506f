-- ===== src/Storage/Config/Redis.antt =====
-- `RedisConfig` of src/storage/config.rs. The texts that make up the URL are their bytes, a `Duration`
-- is in milliseconds, and the environment variables are arguments.
pub mod Url
use qml.Base.{ℕ, String, Bool, true, false, Option, none, some, [], ◌∷◌, Bytes, codes}

pub record RedisConfig : Type 0 where
  pub url : Bytes
  pub pool_size : ℕ
  pub connection_timeout : ℕ
  pub command_timeout : ℕ
  pub key_prefix : String
  pub database : Option ℕ
  pub username : Option Bytes
  pub password : Option Bytes
  pub tls : Bool
  pub completed_job_ttl : Option ℕ
  pub failed_job_ttl : Option ℕ

-- `REDIS_URL`, `REDIS_USERNAME` and `REDIS_PASSWORD`, where they are set.
pub record Environment : Type 0 where
  pub redis_url : Option Bytes
  pub redis_username : Option Bytes
  pub redis_password : Option Bytes

abbrev non_empty : Option Bytes → Option Bytes
non_empty none = none
non_empty (some []) = none
non_empty (some (c ∷ s)) = some (c ∷ s)

abbrev unwrap_or : Option Bytes → Bytes → Bytes
unwrap_or none d = d
unwrap_or (some s) d = s

unfoldable pub default : Environment → RedisConfig
default env = record {
  url = unwrap_or env.redis_url (codes "redis://localhost:6379");
  pool_size = 10;
  connection_timeout = 5000;
  command_timeout = 5000;
  key_prefix = "qml";
  database = none;
  username = non_empty env.redis_username;
  password = non_empty env.redis_password;
  tls = false;
  completed_job_ttl = none;
  failed_job_ttl = none;
}

unfoldable pub new : Environment → RedisConfig
unfolding default
new env = default env

unfoldable pub with_url : RedisConfig → Bytes → RedisConfig
with_url c url = record c { url = url }

unfoldable pub with_pool_size : RedisConfig → ℕ → RedisConfig
with_pool_size c size = record c { pool_size = size }

unfoldable pub with_connection_timeout : RedisConfig → ℕ → RedisConfig
with_connection_timeout c timeout = record c { connection_timeout = timeout }

unfoldable pub with_command_timeout : RedisConfig → ℕ → RedisConfig
with_command_timeout c timeout = record c { command_timeout = timeout }

unfoldable pub with_key_prefix : RedisConfig → String → RedisConfig
with_key_prefix c prefix = record c { key_prefix = prefix }

unfoldable pub with_database : RedisConfig → ℕ → RedisConfig
with_database c database = record c { database = some database }

unfoldable pub with_credentials : RedisConfig → Bytes → Bytes → RedisConfig
with_credentials c username password = record c {
  username = some username;
  password = some password;
}

unfoldable pub with_password : RedisConfig → Bytes → RedisConfig
with_password c password = record c { password = some password }

unfoldable pub with_tls : RedisConfig → Bool → RedisConfig
with_tls c enabled = record c { tls = enabled }

unfoldable pub with_completed_job_ttl : RedisConfig → ℕ → RedisConfig
with_completed_job_ttl c ttl = record c { completed_job_ttl = some ttl }

unfoldable pub with_failed_job_ttl : RedisConfig → ℕ → RedisConfig
with_failed_job_ttl c ttl = record c { failed_job_ttl = some ttl }

unfoldable pub no_completed_job_ttl : RedisConfig → RedisConfig
no_completed_job_ttl c = record c { completed_job_ttl = none }

unfoldable pub no_failed_job_ttl : RedisConfig → RedisConfig
no_failed_job_ttl c = record c { failed_job_ttl = none }
