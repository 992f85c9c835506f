-- ===== src/Processing/Processor.antt =====
-- `process_job` of src/processing/processor.rs: the run of one worker over one job.
pub mod Settled
pub mod Verdicts
pub mod Limits
pub mod Writes
pub use qml.Processing.Handlers.{JobProcessor, HookCall, Readings, Texts, World}
unfoldable pub use qml.Processing.Handlers.{
  next_attempt, extract_previous_exception, add_exec_metadata, error_type, is_processing,
  is_negative, and_then, fire_state_change_hook, announce, apply_state_change, save,
  should_retry_attempt, complete_job_successfully, fail_job_permanently, retry_time,
  handle_job_retry, handle_job_timeout, handle_execution_error,
}
use qml.Base.{
  ℕ, ◌+◌, ◌-◌, ℤ, pos, negsuc, ◌+ℤ◌, before, String, Bool, true, false, not, Option, none, some,
  List, [], ◌∷◌, ◌++◌, ltb, ◌&&◌, if◌then◌else◌, ◌<>◌,
}
use qml.Base.Maps.{Map}
use qml.Core.JobState.{
  JobState, DateTime, Duration, is_final, new_processing, new_succeeded, new_failed,
  new_awaiting_retry,
}
use qml.Core.Job.{Job, set_state, add_metadata}
use qml.Error.{QmlError, StorageError, Result, ok, err, map_err, from_storage_error}
use qml.Processing.Retry.{Floats, RetryPolicy, should_retry, calculate_retry_time}
use qml.Processing.Worker.{
  WorkerConfig, WorkerContext, WorkerResult, success, retry, failure, Worker, WorkerRegistry,
  get_worker, CancellationToken, context_new, retry_from, with_cancel,
}
use qml.Processing.Middleware.{JobMiddleware, run_stack}
use qml.Processing.Store.{JobStore}

module _ (fl : Floats) (texts : Texts) (st : JobStore) where
  abbrev Handled : Type 0
  Handled = World fl texts st

  unfoldable pub make_context : JobProcessor fl.F → Readings fl.F → Job → WorkerContext
  make_context p t job =
      let context =
        if ltb 1 job.attempt
        then retry_from t.context_at t.fresh_token p.worker_config job.attempt
            (extract_previous_exception job)
        else context_new t.context_at t.fresh_token p.worker_config in
      with_cancel context p.cancel_token

  -- `tokio::time::timeout` around the stack: `none` when the timeout fires first.
  abbrev pub outcome :
      JobProcessor fl.F → Readings fl.F → Worker → Job → Option (Result QmlError WorkerResult)
  outcome p t worker job =
      if t.timed_out then none else some (run_stack p.middleware worker job (make_context p t job))

  unfoldable pub handle_outcome :
      JobProcessor fl.F
      → Readings fl.F
      → Handled
      → Job
      → Option (Result QmlError WorkerResult)
      → Handled × Result QmlError (Unit {0})
  unfolding complete_job_successfully handle_job_retry fail_job_permanently handle_job_timeout
      handle_execution_error
  handle_outcome p t w job none = handle_job_timeout fl texts st p t w job
  handle_outcome p t w job (some (ok (success result _ metadata))) =
      complete_job_successfully fl texts st p t w job result t.elapsed_ms metadata
  handle_outcome p t w job (some (ok (retry error _ retry_at _))) =
      handle_job_retry fl texts st p t w job error retry_at
  handle_outcome p t w job (some (ok (failure error _ _))) =
      fail_job_permanently fl texts st p t w job error none
  handle_outcome p t w job (some (err e)) = handle_execution_error fl texts st p t w job e

  unfoldable pub save_begun :
      Handled × Job × Result QmlError (Unit {0}) → Handled × Job × Result QmlError (Unit {0})
  unfolding save
  save_begun (w, job, ok _) = let (saved, r) = save fl texts st w job in (saved, job, r)
  save_begun (w, job, err e) = (w, job, err e)

  -- The transition to `Processing`, for a job that is not there yet.
  unfoldable pub begin :
      JobProcessor fl.F → Readings fl.F → Handled → Job → Handled × Job × Result QmlError (Unit {0})
  unfolding apply_state_change save_begun
  begin p t w job =
      if is_processing job.state
      then (w, job, ok tt)
      else save_begun (
          apply_state_change fl texts st p w job
            (new_processing t.processing_at p.worker_config.worker_id p.worker_config.server_name))

  abbrev pub no_worker : String → String
  no_worker method = "No worker registered for method: " <> method

  abbrev pub returns :
      Handled × Result QmlError (Unit {0}) → Handled × Option (Result QmlError (Unit {0}))
  returns (w, r) = (w, some r)

  -- The run once the job is in `Processing`. `none` is the panic of `to_std().unwrap()`.
  unfoldable pub run_begun :
      JobProcessor fl.F
      → Readings fl.F
      → Worker
      → Handled × Job × Result QmlError (Unit {0})
      → Handled × Option (Result QmlError (Unit {0}))
  unfolding handle_outcome
  run_begun p t worker (w, job, err e) = (w, some (err e))
  run_begun p t worker (w, job, ok _) =
      if is_negative p.worker_config.job_timeout
      then (w, none)
      else returns (handle_outcome p t w job (outcome p t worker job))

  unfoldable pub process_with :
      JobProcessor fl.F
      → Readings fl.F
      → Handled
      → Job
      → Option Worker
      → Handled × Option (Result QmlError (Unit {0}))
  unfolding run_begun begin fail_job_permanently
  process_with p t w job none =
      returns (fail_job_permanently fl texts st p t w job (no_worker job.method) none)
  process_with p t w job (some worker) = run_begun p t worker (begin p t w job)

  unfoldable pub process_job :
      JobProcessor fl.F
      → Readings fl.F
      → Handled
      → Job
      → Handled × Option (Result QmlError (Unit {0}))
  unfolding process_with
  process_job p t w given =
      let job = record given { attempt = next_attempt given.attempt } in
      process_with p t w job (get_worker p.worker_registry job.method)
