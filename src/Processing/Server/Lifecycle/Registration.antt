-- ===== src/Processing/Server/Lifecycle/Registration.antt =====
-- The row of a server in the registry of the memory storage, over a `start` and a `stop`
-- (src/processing/server.rs and src/storage/memory.rs).
use qml.Base.{
  ◌≡◌, ◌∙◌, ◌%◌, ◌^◌, String, Bool, true, false, none, some, arith, if◌then◌else◌, ◌==◌, ◌<>◌,
}
use qml.Base.Maps
use qml.Core.ServerInfo.{ServerInfo, new}
use qml.Processing.Server.Backend.{Tokens, memory_backend}
use qml.Processing.Server.Lifecycle.{
  Host, StartReadings, spawn, after_register, start, stop, deregister, info_of,
}
use qml.Storage.Memory.Locker.{requeue_stranded_jobs}
use qml.Storage.Memory.Servers.{register_server, deregister_server}

module _ (F : Type 0) (tk : Tokens) where
  abbrev H : Type 0
  H = Host F memory_backend tk

  -- The row as it is registered.
  abbrev pub row : StartReadings memory_backend → H → ServerInfo
  row r h = record {
    server_id = h.server.config.server_name <> "#" <> r.uuid;
    server_name = h.server.config.server_name;
    started_at = r.registered_at;
    last_heartbeat = r.registered_at;
    worker_count = h.server.config.worker_count % 2 ^ 32;
    queues = h.server.config.queues;
  }

  -- A stopped server with heartbeats that is started has its row in the registry, under a name made
  -- of its own and the random part, and every other row is as it was; when it is then stopped its row
  -- is gone, and every other row is still as it was before the start.
  pub start-stop_lem :
      (r : StartReadings memory_backend) (h : H) (joined : Bool) (k : String)
      → h.server.is_running ≡ false
      → h.server.config.enable_heartbeat ≡ true
      → let up = (start F memory_backend tk r h).0 in
        let down = (stop F memory_backend tk joined up).0 in
        let id = (row r h).server_id in
        (Maps.get k up.store.servers
          ≡ (if id == k then some (row r h) else Maps.get k h.store.servers))
        × (Maps.get k down.store.servers ≡ (if id == k then none else Maps.get k h.store.servers))
  unfolding start stop spawn after_register deregister info_of new requeue_stranded_jobs
      register_server deregister_server
  start-stop_lem r h joined k stopped on =
      let id = (row r h).server_id in
      let inserted = Maps.get-insert id k (row r h) h.store.servers in
      rw (stopped, on)
        (
          inserted,
          Maps.get-remove id k (Maps.insert id (row r h) h.store.servers)
              ∙ ground (arith, inserted),
        )
