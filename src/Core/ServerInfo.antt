-- ===== src/Core/ServerInfo.antt =====
-- src/core/server_info.rs.
use qml.Base.{ℕ, String, List}
use qml.Core.JobState.{DateTime}

pub record ServerInfo : Type 0 where
  pub server_id : String
  pub server_name : String
  pub started_at : DateTime
  pub last_heartbeat : DateTime
  pub worker_count : ℕ
  pub queues : List String

unfoldable pub new : DateTime → String → String → ℕ → List String → ServerInfo
new now server_id server_name worker_count queues = record {
  server_id = server_id;
  server_name = server_name;
  started_at = now;
  last_heartbeat = now;
  worker_count = worker_count;
  queues = queues;
}
