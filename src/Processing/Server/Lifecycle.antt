-- ===== src/Processing/Server/Lifecycle.antt =====
-- `start` and `stop` of src/processing/server.rs, over a store and the tokens. No other caller comes
-- between the guards of one `start` or `stop`.
pub mod Outcomes
pub mod Wiring
pub mod Starting
pub mod Stopping
pub mod Registration
use qml.Base.{
  ℕ, zero, suc, ◌+◌, ◌%◌, ◌^◌, ◌-ℤ◌, String, Bool, true, false, Option, none, some, List, [], ◌∷◌,
  ◌++◌, if◌then◌else◌, ◌<>◌,
}
use qml.Core.JobState.{DateTime}
use qml.Core.Recurring.{RecurringJob}
use qml.Core.ServerInfo
use qml.Error.{QmlError, StorageError, Result, ok, err, map_err, storage_error_to_string}
use qml.Processing.Worker.{CancellationToken}
use qml.Processing.Server.Config.{ServerConfig}
use qml.Processing.Server.Backend.{ServerStore, Tokens}
use qml.Processing.Server.Spawning.{
  Task, worker, BackgroundJobServer, make_processor, background_tasks,
}

-- What one `start` reads: the clock, at the sweep and in `ServerInfo::new`, and the random
-- part of the identifier.
pub record StartReadings (b : ServerStore) : Type 0 where
  pub swept_at : DateTime
  pub sweep_times : b.SweepTimes
  pub registered_at : DateTime
  pub uuid : String

abbrev pub stamped_name : ServerConfig → Option String → String
stamped_name c none = c.server_name
stamped_name c (some id) = id

abbrev pub identity_of : {b : ServerStore} → ServerConfig → StartReadings b → String
identity_of c r = c.server_name <> "#" <> r.uuid

-- `worker_count as u32`.
unfoldable pub info_of : {b : ServerStore} → ServerConfig → StartReadings b → ServerInfo.ServerInfo
unfolding ServerInfo.new
info_of c r =
    ServerInfo.new r.registered_at (identity_of c r) c.server_name (c.worker_count % 2 ^ 32)
      c.queues

abbrev pub register_failed : StorageError → QmlError
register_failed e =
    QmlError.storage_error ("Failed to register server heartbeat: " <> storage_error_to_string e)

-- A failure to deregister is logged.
unfoldable pub deregister : (b : ServerStore) → b.S → Option String → b.S
deregister b store none = store
deregister b store (some id) = (b.deregister_server store id).0

module _ (F : Type 0) (b : ServerStore) (tk : Tokens) where
  -- The server with the store and the tokens that it shares with its tasks.
  pub record Host : Type 0 where
    pub server : BackgroundJobServer F
    pub store : b.S
    pub tokens : tk.T

  -- The `for` loop of `start_workers`, with the number of rounds left. The token that each
  -- `JobProcessor` is born with is replaced by its child token at once.
  unfoldable pub start_workers :
      BackgroundJobServer F → CancellationToken → String → ℕ → ℕ → tk.T → tk.T × List (Task F)
  unfolding make_processor
  start_workers sv token stamped zero worker_id tokens = (tokens, [])
  start_workers sv token stamped (suc rounds) worker_id tokens =
      let (born, fresh) = tk.new_token tokens in
      let (made, cancel) = tk.child_token born token in
      let (tokens', tasks) = start_workers sv token stamped rounds (worker_id + 1) made in
      (tokens', worker (make_processor sv fresh cancel stamped worker_id) sv.config cancel ∷ tasks)

  -- The end of `start`: all tasks are spawned.
  unfoldable pub spawn : BackgroundJobServer F → Option String → b.S → tk.T → Host
  unfolding background_tasks start_workers
  spawn sv identity store tokens =
      let c = sv.config in
      let (tokens', workers) =
        start_workers sv sv.shutdown_token (stamped_name c identity) c.worker_count 0 tokens in
      record {
        server = record sv {
          server_id = identity;
          is_running = true;
          worker_handles =
              sv.worker_handles ++ (background_tasks c sv.shutdown_token identity ++ workers);
        };
        store = store;
        tokens = tokens';
      }

  -- What follows `register_server`: a refusal leaves the server stopped.
  unfoldable pub after_register :
      BackgroundJobServer F
      → String
      → tk.T
      → b.S × Result StorageError (Unit {0})
      → Host × Result QmlError (Unit {0})
  unfolding spawn
  after_register sv id tokens (store, ok _) = (spawn sv (some id) store tokens, ok tt)
  after_register sv id tokens (store, err e) =
      (record { server = sv; store = store; tokens = tokens }, err (register_failed e))

  unfoldable pub start : StartReadings b → Host → Host × Result QmlError (Unit {0})
  unfolding spawn after_register info_of
  start r h =
      let c = h.server.config in
      if h.server.is_running
      then (h, err (QmlError.configuration_error "Server is already running"))
      else (let (swept, _) =
            b.requeue_stranded_jobs r.sweep_times h.store
              (r.swept_at -ℤ c.stale_processing_after) in
          let (tokens, token) = tk.new_token h.tokens in
          let sv = record h.server { shutdown_token = token } in
          if c.enable_heartbeat
          then after_register sv (identity_of c r) tokens (b.register_server swept (info_of c r))
          else (spawn sv none swept tokens, ok tt))

  -- `joined`: all tasks end within `shutdown_timeout`. The tasks in the result are aborted.
  unfoldable pub stop : Bool → Host → Host × List (Task F)
  unfolding deregister
  stop joined h =
      if h.server.is_running
      then (
        record {
          server = record h.server { is_running = false; server_id = none; worker_handles = [] };
          store = deregister b h.store h.server.server_id;
          tokens = tk.cancel h.tokens h.server.shutdown_token;
        },
        if joined then [] else h.server.worker_handles,
      )
      else (h, [])

  unfoldable pub schedule_recurring :
      Host → Result QmlError RecurringJob → Host × Result QmlError (Unit {0})
  schedule_recurring h (err e) = (h, err e)
  schedule_recurring h (ok recurring) =
      let (store, r) = b.upsert_recurring_job h.store recurring in
      (
        record h { store = store },
        map_err
            (λ e.
              QmlError.storage_error
                ("Failed to upsert recurring job: " <> storage_error_to_string e))
            r,
      )

  unfoldable pub remove_recurring : Host → String → Host × Result QmlError Bool
  remove_recurring h id =
      let (store, r) = b.remove_recurring_job h.store id in
      (
        record h { store = store },
        map_err
            (λ e.
              QmlError.storage_error
                ("Failed to remove recurring job: " <> storage_error_to_string e))
            r,
      )
