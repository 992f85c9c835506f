-- ===== src/Processing/Builder.antt =====
-- The constructors of `JobProcessor` in src/processing/processor.rs, for any number type of the
-- retry policy. The fresh token of `CancellationToken::new()` is an argument.
use qml.Base.{true, false, String, List, [], ◌∷◌}
use qml.Core.JobState.{Duration}
use qml.Processing.Retry.{RetryPolicy}
use qml.Processing.Worker.{WorkerConfig, WorkerRegistry, CancellationToken}
use qml.Processing.Middleware.{JobMiddleware, tracing_middleware}
use qml.Processing.Handlers.{JobProcessor}
use qml.Processing.Server.Config.{default_succeeded_ttl, default_failed_ttl}

module _ {F : Type 0} where
  unfoldable pub with_retry_policy :
      CancellationToken → WorkerRegistry → WorkerConfig → RetryPolicy F → JobProcessor F
  with_retry_policy fresh worker_registry worker_config retry_policy = record {
    worker_registry = worker_registry;
    retry_policy = retry_policy;
    worker_config = worker_config;
    cancel_token = fresh;
    succeeded_ttl = default_succeeded_ttl;
    failed_ttl = default_failed_ttl;
    middleware = tracing_middleware ∷ [];
    on_state_change = false;
  }

  unfoldable pub with_cancellation : JobProcessor F → CancellationToken → JobProcessor F
  with_cancellation p cancel_token = record p { cancel_token = cancel_token }

  unfoldable pub with_ttls : JobProcessor F → Duration → Duration → JobProcessor F
  with_ttls p succeeded_ttl failed_ttl = record p {
    succeeded_ttl = succeeded_ttl;
    failed_ttl = failed_ttl;
  }

  unfoldable pub with_middleware : JobProcessor F → List JobMiddleware → JobProcessor F
  with_middleware p middleware = record p { middleware = middleware }

  unfoldable pub with_state_change_hook : JobProcessor F → JobProcessor F
  with_state_change_hook p = record p { on_state_change = true }

  unfoldable pub get_worker_id : JobProcessor F → String
  get_worker_id p = p.worker_config.worker_id
