-- ===== src/Processing/Worker.antt =====
-- src/processing/worker.rs, and the workers and their registry of src/processing/mod.rs.
pub mod Registry
use qml.Base.{
  ℕ, ◌≡◌, ℤ, pos, ◌-ℤ◌, before, String, Bool, true, false, Option, none, some, List, [], ◌∷◌, map,
  ltb, length, ◌==◌,
}
use qml.Base.Maps
use qml.Base.Maps.{Map}
use qml.Core.JobState.{DateTime, Duration}
use qml.Core.Job.{Job}
use qml.Error.{QmlError, Result}

pub record WorkerConfig : Type 0 where
  pub worker_id : String
  pub server_name : String
  pub queues : List String
  pub job_timeout : Duration
  pub polling_interval : Duration

unfoldable pub config_new : String → WorkerConfig
config_new worker_id = record {
  worker_id = worker_id;
  server_name = "default";
  queues = "default" ∷ [];
  job_timeout = pos 300_000;
  polling_interval = pos 1000;
}

unfoldable pub server_name : WorkerConfig → String → WorkerConfig
server_name c name = record c { server_name = name }

unfoldable pub queues : WorkerConfig → List String → WorkerConfig
queues c names = record c { queues = names }

unfoldable pub job_timeout : WorkerConfig → Duration → WorkerConfig
job_timeout c timeout = record c { job_timeout = timeout }

unfoldable pub polling_interval : WorkerConfig → Duration → WorkerConfig
polling_interval c interval = record c { polling_interval = interval }

-- A token of tokio_util, which the code only hands on, stands as its number.
abbrev pub CancellationToken : Type 0
CancellationToken = ℕ

pub record WorkerContext : Type 0 where
  pub config : WorkerConfig
  pub started_at : DateTime
  pub execution_metadata : Map String
  pub attempt : ℕ
  pub previous_exception : Option String
  pub cancel : CancellationToken

-- The arguments before the source's are the clock and the fresh token.
unfoldable pub context_new : DateTime → CancellationToken → WorkerConfig → WorkerContext
context_new now fresh config = record {
  config = config;
  started_at = now;
  execution_metadata = [];
  attempt = 1;
  previous_exception = none;
  cancel = fresh;
}

unfoldable pub retry_from :
    DateTime → CancellationToken → WorkerConfig → ℕ → Option String → WorkerContext
retry_from now fresh config attempt previous_exception = record {
  config = config;
  started_at = now;
  execution_metadata = [];
  attempt = attempt;
  previous_exception = previous_exception;
  cancel = fresh;
}

unfoldable pub with_cancel : WorkerContext → CancellationToken → WorkerContext
with_cancel c cancel = record c { cancel = cancel }

unfoldable pub context_add_metadata : WorkerContext → String → String → WorkerContext
context_add_metadata c key value = record c {
  execution_metadata = Maps.insert key value c.execution_metadata;
}

unfoldable pub duration : WorkerContext → DateTime → Duration
duration c now = now -ℤ c.started_at

unfoldable pub context_is_timed_out : WorkerContext → DateTime → Bool
unfolding duration
context_is_timed_out c now = before c.config.job_timeout (duration c now)

unfoldable pub is_retry : WorkerContext → Bool
is_retry c = ltb 1 c.attempt

-- The fields in the source's order: `success result duration_ms metadata`,
-- `retry error stack_trace retry_at context`, `failure error stack_trace context`.
pub data WorkerResult : Type 0 where
  success : Option String → ℕ → Map String → WorkerResult
  retry : String → Option String → Option DateTime → Map String → WorkerResult
  failure : String → Option String → Map String → WorkerResult

unfoldable pub result_success : Option String → ℕ → WorkerResult
result_success result duration_ms = success result duration_ms []

unfoldable pub success_with_metadata : Option String → ℕ → Map String → WorkerResult
success_with_metadata result duration_ms metadata = success result duration_ms metadata

unfoldable pub result_retry : String → Option DateTime → WorkerResult
result_retry error retry_at = retry error none retry_at []

unfoldable pub retry_with_context : String → Option DateTime → Map String → WorkerResult
retry_with_context error retry_at context = retry error none retry_at context

unfoldable pub result_failure : String → WorkerResult
result_failure error = failure error none []

unfoldable pub failure_with_context : String → Map String → WorkerResult
failure_with_context error context = failure error none context

unfoldable pub is_success : WorkerResult → Bool
is_success (success _ _ _) = true
is_success _ = false

unfoldable pub result_should_retry : WorkerResult → Bool
result_should_retry (retry _ _ _ _) = true
result_should_retry _ = false

unfoldable pub is_failure : WorkerResult → Bool
is_failure (failure _ _ _) = true
is_failure _ = false

unfoldable pub error_message : WorkerResult → Option String
error_message (retry error _ _ _) = some error
error_message (failure error _ _) = some error
error_message (success _ _ _) = none

-- An implementation of `Worker`: what a call of `execute` returns.
pub record Worker : Type 0 where
  pub execute : Job → WorkerContext → Result QmlError WorkerResult
  pub method_name : String

abbrev pub WorkerRegistry : Type 0
WorkerRegistry = Map Worker

unfoldable pub registry_new : WorkerRegistry
registry_new = []

unfoldable pub register : WorkerRegistry → Worker → WorkerRegistry
register r worker = Maps.insert worker.method_name worker r

unfoldable pub get_worker : WorkerRegistry → String → Option Worker
get_worker r method = Maps.get method r

unfoldable pub has_worker : WorkerRegistry → String → Bool
has_worker r method = Maps.contains_key method r
