-- ===== src/Processing/Examples.antt =====
-- Runs and instances of the retry policy, the registry, the middleware and the processor.
mod Background
mod Serving
use qml.Base.{
  ◌≡◌, ◌≢◌, ◌≤◌, ◌↔◌, refl, ℤ, pos, ◌+ℤ◌, ◌*ℤ◌, ◌-ℤ◌, ◌≤ℤ◌, min_ℤ, true, false, none, some, [], ◌∷◌,
  ◌++◌, arith, at_most, at_most→≤ℤ,
}
use qml.Base.Maps
use qml.Core.JobState.{JobState, new_processing, can_transition_to}
use qml.Core.Job.{Job}
use qml.Error.{QmlError, ok, err}
use qml.Processing.Retry.{
  Floats, FloatLaws, RetryStrategy, RetryPolicy, fixed, exponential_backoff, should_retry,
  calculate_delay, scale,
}
use qml.Processing.Retry.Decision.{Retryable, should_retry_iff}
use qml.Processing.Retry.Delays.{backoff_within_max}
use qml.Processing.Worker.{WorkerConfig, retry, Worker, registry_new, get_worker}
use qml.Processing.Worker.Registry.{register_all, last_for, get_worker-register_all}
use qml.Processing.Middleware.{run_stack, tracing_middleware, wrapped, run_stack-append}
use qml.Processing.Store.{memory_store, lookup, memory_laws}
use qml.Processing.Processor
use qml.Processing.Processor.Settled.{Settled}
use qml.Processing.Processor.Verdicts.{attempted, decided, judged, written, process_job_settles}
use qml.Processing.Processor.Limits.{
  GivenUp, process_job_refuses, listed_exceptions_are_not_retried,
}
use qml.Storage.Memory.State.{MemoryStorage}

-- Whole numbers for f64: exact on the numbers that the delays use here.
abbrev floats : Floats
floats = record {
  F = ℤ;
  of_i64 = λ n. n;
  to_i64 = λ a. a;
  fmul = λ a b. a *ℤ b;
  fadd = λ a b. a +ℤ b;
  fsub = λ a b. a -ℤ b;
  fmin = λ a b. min_ℤ a b;
  quarter = pos 0;
  one = pos 1;
  two = pos 2;
}

float_laws : FloatLaws floats
float_laws = record {
  fle = λ a b. a ≤ℤ b;
  fmin_le = λ a n. ground (arith, at_most→≤ℤ a n);
  to_i64_mono = λ a b h. h;
  exact = λ n h k. refl;
}

abbrev backoff : RetryStrategy ℤ
backoff = exponential_backoff (pos 1000) (pos 2) (pos 3000) 5 false

backoff_delay : calculate_delay floats (pos 0) backoff 4 ≡ some (pos 3000)
unfolding calculate_delay scale ◌*ℤ◌ at_most
backoff_delay = refl

backoff_within_max_example : pos 3000 ≤ℤ pos 3000
backoff_within_max_example =
    backoff_within_max floats float_laws (pos 0) backoff (pos 3000) (pos 3000) 4 (refl, refl)
      (omega arith) (omega arith) backoff_delay

abbrev policy : RetryPolicy ℤ
policy = record {
  strategy = fixed (pos 1000) 2;
  retry_on_all_exceptions = false;
  retryable_exceptions = "WorkerError" ∷ [];
  non_retryable_exceptions = [];
}

-- A worker that fails, and one that asks for a retry.
abbrev failing : Worker
failing = record {
  execute = λ job ctx. err (QmlError.worker_error "boom");
  method_name = "send_email";
}

abbrev asking : Worker
asking = record { execute = λ job ctx. ok (retry "busy" none none []); method_name = "send_email" }

abbrev config : WorkerConfig
config = record {
  worker_id = "w1";
  server_name = "s1";
  queues = [];
  job_timeout = pos 300_000;
  polling_interval = pos 1000;
}

abbrev processor : Processor.JobProcessor ℤ
processor = record {
  worker_registry = ("send_email", failing) ∷ [];
  retry_policy = policy;
  worker_config = config;
  cancel_token = 0;
  succeeded_ttl = pos 1000;
  failed_ttl = pos 2000;
  middleware = tracing_middleware ∷ [];
  on_state_change = true;
}

abbrev readings : Processor.Readings ℤ
readings = record {
  processing_at = pos 100;
  context_at = pos 101;
  elapsed_ms = 5;
  settled_at = pos 106;
  expiry_now = pos 107;
  retry_now = pos 108;
  fallback_now = pos 109;
  random = pos 0;
  fresh_token = 7;
  timed_out = false;
}

abbrev texts : Processor.Texts
texts = record { debug_duration = λ d. "PT300S"; error_to_string = λ e. "boom" }

abbrev pub given : Job
given = record {
  id = "j1";
  method = "send_email";
  payload = "null";
  created_at = pos 5;
  state = JobState.processing (pos 90) "w1" "memory-storage";
  queue = "default";
  priority = pos 0;
  max_retries = 1;
  attempt = 1;
  metadata = [];
  job_type = none;
  timeout_seconds = none;
  expires_at = none;
}

abbrev pub storage : MemoryStorage
storage = record {
  jobs = ("j1", given) ∷ [];
  locks = [];
  recurring = [];
  servers = [];
  named_locks = [];
  config = record { max_jobs = none; auto_cleanup = true; cleanup_interval = none };
}

abbrev world : Processor.World floats texts memory_store
world = record { store = storage; hook_calls = [] }

is_stored : lookup storage "j1" ≢ none
unfolding Maps.get
is_stored h = cc

process_job_settles_example :
    let job = attempted floats texts memory_store lookup memory_laws given in
    let v =
      decided floats texts memory_store lookup memory_laws processor readings job
        (get_worker processor.worker_registry "send_email") in
    let r = Processor.process_job floats texts memory_store processor readings world given in
    (r.1 ≡ some (ok tt))
    × ((written floats texts memory_store processor readings job v).id ≡ "j1")
    × Settled floats texts memory_store lookup memory_laws processor world given.state
        (judged floats texts memory_store processor readings job v)
        (written floats texts memory_store processor readings job v)
        r.0
process_job_settles_example =
    process_job_settles floats texts memory_store lookup memory_laws processor readings world given
      refl refl is_stored

-- The worker fails with a `WorkerError`, which the policy lists.
listed_exceptions_are_not_retried_example :
    GivenUp floats texts memory_store lookup memory_laws
      (Processor.process_job floats texts memory_store processor readings world given).0
      "j1"
listed_exceptions_are_not_retried_example =
    listed_exceptions_are_not_retried floats texts memory_store lookup memory_laws processor
      readings world given refl refl is_stored refl

abbrev waiting : Job
waiting = record given { state = JobState.awaiting_retry (pos 90) (pos 95) "boom" }
