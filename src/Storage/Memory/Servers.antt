-- ===== src/Storage/Memory/Servers.antt =====
-- `ServerRegistry` (src/storage/memory.rs).
use qml.Base.{ℕ, String, Bool, true, false, none, some, List, before, filter, ◌==◌}
use qml.Base.Maps
use qml.Core.JobState.{JobState, DateTime}
use qml.Core.ServerInfo.{ServerInfo}
use qml.Storage.Memory.State.{MemoryStorage}
use qml.Storage.Memory.Locker.{requeue_loop}

unfoldable pub register_server : MemoryStorage → ServerInfo → MemoryStorage
register_server s info = record s { servers = Maps.insert info.server_id info s.servers }

unfoldable pub heartbeat_server : MemoryStorage → String → DateTime → MemoryStorage × Bool
heartbeat_server s server_id now = elim (Maps.get server_id s.servers) [
  | none ↦ (s, false)
  | some info ↦ (
    record s { servers = Maps.insert server_id (record info { last_heartbeat = now }) s.servers },
    true,
  )
]

unfoldable pub deregister_server : MemoryStorage → String → MemoryStorage × Bool
deregister_server s server_id = (
  record s { servers = Maps.remove server_id s.servers },
  Maps.is_some (Maps.get server_id s.servers),
)

unfoldable pub list_dead_servers : MemoryStorage → DateTime → List ServerInfo
list_dead_servers s stale_before =
    filter (λ i. before i.last_heartbeat stale_before) (Maps.values s.servers)

unfoldable pub runs_on : String → JobState → Bool
runs_on server_id (JobState.processing _ _ server_name) = server_name == server_id
runs_on server_id _ = false

unfoldable pub reclaim_jobs_from_server :
    (String → DateTime) → MemoryStorage → String → MemoryStorage × ℕ
unfolding requeue_loop runs_on
reclaim_jobs_from_server now_for s server_id =
    let ((jobs, locks), reclaimed) = requeue_loop (runs_on server_id) now_for s.jobs s.locks in
    (record s { jobs = jobs; locks = locks }, reclaimed)
