-- ===== src/Processing/Server/Config.antt =====
-- `ServerConfig` of src/processing/server.rs, with its defaults and its builders.
use qml.Base.{ℕ, pos, String, Bool, true, false, List, [], ◌∷◌}
use qml.Core.JobState.{Duration}

-- The constants of src/processing/cleanup.rs and heartbeat.rs, in milliseconds.
abbrev pub default_cleanup_interval : Duration
default_cleanup_interval = pos 60_000

abbrev pub default_succeeded_ttl : Duration
default_succeeded_ttl = pos 86_400_000

abbrev pub default_failed_ttl : Duration
default_failed_ttl = pos 604_800_000

abbrev pub default_heartbeat_interval : Duration
default_heartbeat_interval = pos 10_000

abbrev pub default_dead_server_timeout : Duration
default_dead_server_timeout = pos 60_000

pub record ServerConfig : Type 0 where
  pub server_name : String
  pub worker_count : ℕ
  pub polling_interval : Duration
  pub job_timeout : Duration
  pub queues : List String
  pub auto_start : Bool
  pub fetch_batch_size : ℕ
  pub enable_scheduler : Bool
  pub scheduler_poll_interval : Duration
  pub shutdown_timeout : Duration
  pub stale_processing_after : Duration
  pub enable_recurring : Bool
  pub recurring_poll_interval : Duration
  pub enable_cleanup : Bool
  pub cleanup_interval : Duration
  pub succeeded_ttl : Duration
  pub failed_ttl : Duration
  pub enable_heartbeat : Bool
  pub heartbeat_interval : Duration
  pub dead_server_timeout : Duration

unfoldable pub default : ServerConfig
default = record {
  server_name = "qml-server";
  worker_count = 5;
  polling_interval = pos 1000;
  job_timeout = pos 300_000;
  queues = "default" ∷ [];
  auto_start = true;
  fetch_batch_size = 10;
  enable_scheduler = true;
  scheduler_poll_interval = pos 30_000;
  shutdown_timeout = pos 30_000;
  stale_processing_after = pos 300_000;
  enable_recurring = true;
  recurring_poll_interval = pos 5000;
  enable_cleanup = true;
  cleanup_interval = default_cleanup_interval;
  succeeded_ttl = default_succeeded_ttl;
  failed_ttl = default_failed_ttl;
  enable_heartbeat = false;
  heartbeat_interval = default_heartbeat_interval;
  dead_server_timeout = default_dead_server_timeout;
}

unfoldable pub new : String → ServerConfig
unfolding default
new server_name = record default { server_name = server_name }

unfoldable pub worker_count : ServerConfig → ℕ → ServerConfig
worker_count c count = record c { worker_count = count }

unfoldable pub polling_interval : ServerConfig → Duration → ServerConfig
polling_interval c interval = record c { polling_interval = interval }

unfoldable pub job_timeout : ServerConfig → Duration → ServerConfig
job_timeout c interval = record c { job_timeout = interval }

unfoldable pub queues : ServerConfig → List String → ServerConfig
queues c names = record c { queues = names }

unfoldable pub fetch_batch_size : ServerConfig → ℕ → ServerConfig
fetch_batch_size c count = record c { fetch_batch_size = count }

unfoldable pub enable_scheduler : ServerConfig → Bool → ServerConfig
enable_scheduler c enable = record c { enable_scheduler = enable }

unfoldable pub shutdown_timeout : ServerConfig → Duration → ServerConfig
shutdown_timeout c interval = record c { shutdown_timeout = interval }

unfoldable pub stale_processing_after : ServerConfig → Duration → ServerConfig
stale_processing_after c interval = record c { stale_processing_after = interval }

unfoldable pub enable_recurring : ServerConfig → Bool → ServerConfig
enable_recurring c enable = record c { enable_recurring = enable }

unfoldable pub recurring_poll_interval : ServerConfig → Duration → ServerConfig
recurring_poll_interval c interval = record c { recurring_poll_interval = interval }

unfoldable pub enable_cleanup : ServerConfig → Bool → ServerConfig
enable_cleanup c enable = record c { enable_cleanup = enable }

unfoldable pub cleanup_interval : ServerConfig → Duration → ServerConfig
cleanup_interval c interval = record c { cleanup_interval = interval }

unfoldable pub succeeded_ttl : ServerConfig → Duration → ServerConfig
succeeded_ttl c interval = record c { succeeded_ttl = interval }

unfoldable pub failed_ttl : ServerConfig → Duration → ServerConfig
failed_ttl c interval = record c { failed_ttl = interval }

unfoldable pub enable_heartbeat : ServerConfig → Bool → ServerConfig
enable_heartbeat c enable = record c { enable_heartbeat = enable }

unfoldable pub heartbeat_interval : ServerConfig → Duration → ServerConfig
heartbeat_interval c interval = record c { heartbeat_interval = interval }

unfoldable pub dead_server_timeout : ServerConfig → Duration → ServerConfig
dead_server_timeout c interval = record c { dead_server_timeout = interval }
