-- ===== src/Processing/Handlers.antt =====
-- The handlers of src/processing/processor.rs, which settle a job, and what a run of it reads. The
-- clock, the random number, the timer of tokio and the texts of `{:?}` are arguments.
use qml.Base.{
  ℕ, ◌+◌, pos, negsuc, ◌+ℤ◌, String, Bool, true, false, not, Option, none, some, List, [], ◌∷◌,
  ◌++◌, ltb, ◌&&◌, if◌then◌else◌, ◌<>◌,
}
use qml.Base.Maps.{Map}
use qml.Core.JobState.{
  JobState, DateTime, Duration, is_final, new_succeeded, new_failed, new_awaiting_retry,
}
use qml.Core.Job.{Job, set_state, add_metadata}
use qml.Error.{QmlError, Result, ok, err, map_err, from_storage_error}
use qml.Processing.Retry.{Floats, RetryPolicy, should_retry, calculate_retry_time}
use qml.Processing.Worker.{WorkerConfig, WorkerRegistry, CancellationToken}
use qml.Processing.Middleware.{JobMiddleware}
use qml.Processing.Store.{JobStore}

-- Whether a hook is installed stands for the hook: its calls are kept in the order they are made.
pub record JobProcessor (F : Type 0) : Type 0 where
  pub worker_registry : WorkerRegistry
  pub retry_policy : RetryPolicy F
  pub worker_config : WorkerConfig
  pub cancel_token : CancellationToken
  pub succeeded_ttl : Duration
  pub failed_ttl : Duration
  pub middleware : List JobMiddleware
  pub on_state_change : Bool

-- One call of the hook: the job, the state before and the state after.
pub record HookCall : Type 0 where
  pub job : Job
  pub prev : JobState
  pub now : JobState

-- What one run reads: the clock at each place of the code, `fastrand::f64()`, the fresh token, and
-- whether the timeout fires before the stack returns.
pub record Readings (F : Type 0) : Type 0 where
  pub processing_at : DateTime
  pub context_at : DateTime
  pub elapsed_ms : ℕ
  pub settled_at : DateTime
  pub expiry_now : DateTime
  pub retry_now : DateTime
  pub fallback_now : DateTime
  pub random : F
  pub fresh_token : CancellationToken
  pub timed_out : Bool

pub record Texts : Type 0 where
  pub debug_duration : Duration → String
  pub error_to_string : QmlError → String

abbrev pub or_else : {A : Type 0} → Option A → Option A → Option A
or_else none o = o
or_else (some a) o = some a

abbrev pub unwrap_or_else : {A : Type 0} → Option A → A → A
unwrap_or_else none a = a
unwrap_or_else (some b) a = b

-- `attempt.saturating_add(1)` on a u32.
abbrev pub next_attempt : ℕ → ℕ
next_attempt n = if ltb n 4294967295 then n + 1 else n

unfoldable pub extract_previous_exception : Job → Option String
extract_previous_exception job = elim job.state [
  | JobState.awaiting_retry _ _ last_exception ↦ some last_exception
  | JobState.failed _ exception _ ↦ some exception
  | _ ↦ none
]

unfoldable pub add_exec_metadata : Job → Map String → Job
add_exec_metadata job [] = job
add_exec_metadata job ((key, value) ∷ rest) =
    add_exec_metadata (add_metadata job ("exec_" <> key) value) rest

abbrev pub error_type : QmlError → String
error_type (QmlError.storage_error _) = "StorageError"
error_type (QmlError.worker_error _) = "WorkerError"
error_type (QmlError.timeout_error _) = "TimeoutError"
error_type _ = "UnknownError"

abbrev pub is_processing : JobState → Bool
is_processing (JobState.processing _ _ _) = true
is_processing _ = false

-- `to_std` refuses a negative duration.
abbrev pub is_negative : Duration → Bool
is_negative (pos _) = false
is_negative (negsuc _) = true

-- `if let Err(e) = … { return Err(e); }`: the rest runs only after a success.
unfoldable pub and_then {ℓ} :
    {W : Type ℓ}
    → W × Job × Result QmlError (Unit {0})
    → (W → Job → W × Result QmlError (Unit {0}))
    → W × Result QmlError (Unit {0})
and_then (w, job, ok _) rest = rest w job
and_then (w, job, err e) rest = (w, err e)

module _ (fl : Floats) (texts : Texts) (st : JobStore) where
  -- The store, and the calls of the hook so far.
  pub record World : Type 0 where
    pub store : st.S
    pub hook_calls : List HookCall

  abbrev pub Processor : Type 0
  Processor = JobProcessor fl.F

  unfoldable pub fire_state_change_hook : Processor → World → Job → JobState → World
  fire_state_change_hook p w job prev_state =
      if p.on_state_change
      then record w {
        hook_calls = w.hook_calls ++ record { job = job; prev = prev_state; now = job.state } ∷ [];
      }
      else w

  -- What follows `set_state`: its error, or the hook.
  unfoldable pub announce :
      Processor
      → World
      → JobState
      → Job × Result QmlError (Unit {0})
      → World × Job × Result QmlError (Unit {0})
  unfolding fire_state_change_hook
  announce p w prev_state (job, ok _) = (fire_state_change_hook p w job prev_state, job, ok tt)
  announce p w prev_state (job, err e) = (w, job, err e)

  unfoldable pub apply_state_change :
      Processor → World → Job → JobState → World × Job × Result QmlError (Unit {0})
  unfolding announce
  apply_state_change p w job new_state = announce p w job.state (set_state job new_state)

  -- `self.storage.update(job).await?`.
  unfoldable pub save : World → Job → World × Result QmlError (Unit {0})
  save w job =
      let (store, r) = st.update w.store job in
      (record w { store = store }, map_err from_storage_error r)

  unfoldable pub should_retry_attempt : Processor → Job → Option String → Bool
  should_retry_attempt p job exception_type =
      if ltb 0 job.max_retries && ltb job.max_retries job.attempt
      then false
      else should_retry p.retry_policy exception_type job.attempt

  unfoldable pub complete_job_successfully :
      Processor
      → Readings fl.F
      → World
      → Job
      → Option String
      → ℕ
      → Map String
      → World × Result QmlError (Unit {0})
  unfolding and_then apply_state_change save
  complete_job_successfully p t w job result duration_ms metadata =
      if is_final job.state
      then (w, ok tt)
      else and_then (apply_state_change p w job (new_succeeded t.settled_at duration_ms result))
          (λ fired changed. save fired (
            add_exec_metadata
              (record changed { expires_at = some (t.expiry_now +ℤ p.succeeded_ttl) }) metadata))

  unfoldable pub fail_job_permanently :
      Processor
      → Readings fl.F
      → World
      → Job
      → String
      → Option String
      → World × Result QmlError (Unit {0})
  unfolding and_then apply_state_change save
  fail_job_permanently p t w job error stack_trace =
      if is_final job.state
      then (w, ok tt)
      else and_then (apply_state_change p w job (new_failed t.settled_at error stack_trace))
          (λ fired changed.
            save fired (record changed { expires_at = some (t.expiry_now +ℤ p.failed_ttl) }))

  -- When the next attempt is due: as the worker asks, else as the policy says, else in a minute.
  unfoldable pub retry_time : Processor → Readings fl.F → Job → Option DateTime → DateTime
  retry_time p t job retry_at =
      unwrap_or_else
        (or_else retry_at (calculate_retry_time fl t.random t.retry_now p.retry_policy job.attempt))
        (t.fallback_now +ℤ pos 60_000)

  unfoldable pub handle_job_retry :
      Processor
      → Readings fl.F
      → World
      → Job
      → String
      → Option DateTime
      → World × Result QmlError (Unit {0})
  unfolding and_then fail_job_permanently fire_state_change_hook save
  handle_job_retry p t w job error retry_at =
      if is_final job.state
      then (w, ok tt)
      else if not (should_retry_attempt p job none)
      then fail_job_permanently p t w job error none
      else (let (changed, r) =
            set_state job (new_awaiting_retry t.settled_at (retry_time p t job retry_at) error) in
          and_then (w, changed, r)
            (λ w changed. save (fire_state_change_hook p w changed job.state) changed))

  unfoldable pub handle_job_timeout :
      Processor → Readings fl.F → World → Job → World × Result QmlError (Unit {0})
  unfolding handle_job_retry fail_job_permanently
  handle_job_timeout p t w job =
      let timeout_error =
        "Job timed out after " <> texts.debug_duration p.worker_config.job_timeout in
      if should_retry_attempt p job (some "TimeoutError")
      then handle_job_retry p t w job timeout_error none
      else fail_job_permanently p t w job timeout_error none

  unfoldable pub handle_execution_error :
      Processor → Readings fl.F → World → Job → QmlError → World × Result QmlError (Unit {0})
  unfolding handle_job_retry fail_job_permanently
  handle_execution_error p t w job error =
      if should_retry_attempt p job (some (error_type error))
      then handle_job_retry p t w job (texts.error_to_string error) none
      else fail_job_permanently p t w job (texts.error_to_string error) none
