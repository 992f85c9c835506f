-- ===== src/Processing/Server/Spawning.antt =====
-- `BackgroundJobServer` of src/processing/server.rs: its fields, its builders, and the tasks that it
-- spawns. A spawned task stands as what its loop is given.
use qml.Base.{
  ℕ, String, Bool, true, false, Option, none, some, List, [], ◌∷◌, ◌++◌, if◌then◌else◌, ◌<>◌, show,
}
use qml.Core.JobState.{Duration}
use qml.Processing.Retry.{RetryPolicy}
use qml.Processing.Worker
use qml.Processing.Worker.{WorkerConfig, WorkerRegistry, CancellationToken, config_new}
use qml.Processing.Middleware.{JobMiddleware, tracing_middleware}
use qml.Processing.Handlers.{JobProcessor}
use qml.Processing.Builder
use qml.Processing.Server.Config.{ServerConfig}

-- The background loops with their intervals, and a worker with its processor.
pub data Task (F : Type 0) : Type 0 where
  scheduler : Duration → CancellationToken → Task F
  recurring_poller : Duration → CancellationToken → Task F
  cleanup_worker : Duration → CancellationToken → Task F
  heartbeat_worker : String → Duration → Duration → CancellationToken → Task F
  worker : JobProcessor F → ServerConfig → CancellationToken → Task F

pub record BackgroundJobServer (F : Type 0) : Type 0 where
  pub config : ServerConfig
  pub worker_registry : WorkerRegistry
  pub retry_policy : RetryPolicy F
  pub middleware : List JobMiddleware
  pub on_state_change : Bool
  pub is_running : Bool
  pub shutdown_token : CancellationToken
  pub worker_handles : List (Task F)
  pub server_id : Option String

module _ {F : Type 0} where
  unfoldable pub new :
      CancellationToken → RetryPolicy F → ServerConfig → WorkerRegistry → BackgroundJobServer F
  new fresh retry_policy config worker_registry = record {
    config = config;
    worker_registry = worker_registry;
    retry_policy = retry_policy;
    middleware = tracing_middleware ∷ [];
    on_state_change = false;
    is_running = false;
    shutdown_token = fresh;
    worker_handles = [];
    server_id = none;
  }

  unfoldable pub with_middleware :
      BackgroundJobServer F → List JobMiddleware → BackgroundJobServer F
  with_middleware sv middleware = record sv { middleware = middleware }

  unfoldable pub with_state_change_hook : BackgroundJobServer F → BackgroundJobServer F
  with_state_change_hook sv = record sv { on_state_change = true }

  unfoldable pub worker_config : BackgroundJobServer F → String → ℕ → WorkerConfig
  unfolding config_new Worker.server_name Worker.queues Worker.job_timeout Worker.polling_interval
  worker_config sv stamped worker_id =
      let c = sv.config in
      Worker.polling_interval
        (Worker.job_timeout
          (Worker.queues
            (Worker.server_name (config_new (c.server_name <> ":worker:" <> show worker_id))
              stamped)
            c.queues)
          c.job_timeout)
        c.polling_interval

  unfoldable pub make_processor :
      BackgroundJobServer F → CancellationToken → CancellationToken → String → ℕ → JobProcessor F
  unfolding worker_config Builder.with_retry_policy Builder.with_cancellation Builder.with_ttls
      Builder.with_middleware Builder.with_state_change_hook
  make_processor sv fresh cancel stamped worker_id =
      let processor =
        Builder.with_middleware
          (Builder.with_ttls
            (Builder.with_cancellation
              (Builder.with_retry_policy fresh sv.worker_registry
                (worker_config sv stamped worker_id) sv.retry_policy)
              cancel)
            sv.config.succeeded_ttl sv.config.failed_ttl)
          sv.middleware in
      if sv.on_state_change then Builder.with_state_change_hook processor else processor

  -- The loops that `start` spawns beside the workers.
  unfoldable pub background_tasks : ServerConfig → CancellationToken → Option String → List (Task F)
  background_tasks c token server_identity =
      (if c.enable_scheduler then scheduler c.scheduler_poll_interval token ∷ [] else [])
      ++ ((if c.enable_recurring then recurring_poller c.recurring_poll_interval token ∷ [] else [])
          ++ ((if c.enable_cleanup then cleanup_worker c.cleanup_interval token ∷ [] else [])
              ++ elim server_identity [
                | none ↦ []
                | some id ↦
                    heartbeat_worker id c.heartbeat_interval c.dead_server_timeout token ∷ []
              ]))
