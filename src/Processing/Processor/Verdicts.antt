-- ===== src/Processing/Processor/Verdicts.antt =====
-- What `process_job` of src/processing/processor.rs makes of a job that a worker thread has claimed.
use qml.Base.{
  ◌+ℤ◌, ◌≡◌, ◌≢◌, inl, inr, refl, sym, ap, subst, String, Bool, true, false, ◌&&◌, Option, none,
  some, if◌then◌else◌, Bool-cases, ◌<>◌,
}
use qml.Base.Maps.{Map}
use qml.Core.JobState.{DateTime, new_succeeded, new_failed, new_awaiting_retry}
use qml.Core.Job.{Job}
use qml.Error.{QmlError, Result, ok, err}
use qml.Processing.Retry.{Floats}
use qml.Processing.Worker.{WorkerResult, success, retry, failure, Worker, get_worker}
use qml.Processing.Store.{JobStore, StoreLaws}
use qml.Processing.Processor
use qml.Processing.Processor.Settled.{
  Settled, saved, complete_lem, fail_lem, retry_lem, no_retry_lem, add_exec_metadata-id,
}

-- What a run decides: the result and the metadata of a success, when to try again and why, or why
-- the job has failed.
pub data Verdict : Type 0 where
  succeeds : Option String → Map String → Verdict
  retries : String → Option DateTime → Verdict
  fails : String → Verdict

module _ (fl : Floats) (texts : Processor.Texts) (st : JobStore) where
  abbrev World : Type 0
  World = Processor.World fl texts st

  abbrev P : Type 0
  P = Processor.JobProcessor fl.F

  abbrev T : Type 0
  T = Processor.Readings fl.F

  abbrev may_retry : P → Job → Option String → Bool
  may_retry p job exception = Processor.should_retry_attempt fl texts st p job exception

  abbrev when : Bool → String → Option DateTime → Verdict
  when b error at = if b then retries error at else fails error

  -- A worker that asks for a retry gets one if the policy retries an unnamed exception. An error or a
  -- timeout must pass the policy under its name as well.
  abbrev pub verdict : P → Job → Option (Result QmlError WorkerResult) → Verdict
  verdict p job none =
      when (may_retry p job (some "TimeoutError") && may_retry p job none)
        ("Job timed out after " <> texts.debug_duration p.worker_config.job_timeout) none
  verdict p job (some (ok (success result _ metadata))) = succeeds result metadata
  verdict p job (some (ok (retry error _ at _))) = when (may_retry p job none) error at
  verdict p job (some (ok (failure error _ _))) = fails error
  verdict p job (some (err e)) =
      when (may_retry p job (some (Processor.error_type e)) && may_retry p job none)
        (texts.error_to_string e) none

  -- The job when its state changes.
  abbrev pub judged : P → T → Job → Verdict → Job
  judged p t job (succeeds result _) = record job {
    state = new_succeeded t.settled_at t.elapsed_ms result;
  }
  judged p t job (retries error at) = record job {
    state = new_awaiting_retry t.settled_at (Processor.retry_time fl texts st p t job at) error;
  }
  judged p t job (fails error) = record job { state = new_failed t.settled_at error none }

  -- The job as it is written: a final one with the instant from which it may be deleted.
  abbrev pub written : P → T → Job → Verdict → Job
  written p t job (succeeds result metadata) =
      Processor.add_exec_metadata
        (record (judged p t job (succeeds result metadata)) {
          expires_at = some (t.expiry_now +ℤ p.succeeded_ttl);
        })
        metadata
  written p t job (retries error at) = judged p t job (retries error at)
  written p t job (fails error) = record (judged p t job (fails error)) {
    expires_at = some (t.expiry_now +ℤ p.failed_ttl);
  }

  module _ (stored : st.S → String → Option Job) (laws : StoreLaws st stored) where
    abbrev Ends : P → T → World → Job → Verdict → World × Result QmlError (Unit {0}) → Type 0
    Ends p t w job v r =
        (r.1 ≡ ok tt)
        × Settled fl texts st stored laws p w job.state (judged p t job v) (written p t job v) r.0

    fail_Ends :
        (p : P) (t : T) (w : World) (job : Job) (error : String)
        → Processor.is_processing job.state ≡ true
        → stored w.store job.id ≢ none
        → Ends p t w job
            (fails error)
            (Processor.fail_job_permanently fl texts st p t w job error none)
    fail_Ends p t w job error h there =
        subst (Ends p t w job (fails error)) (sym (fail_lem fl texts st p t w job error none h))
          (saved fl texts st stored laws p w job.state _ _ there)

    complete_Ends :
        (p : P) (t : T) (w : World) (job : Job) (result : Option String) (m : Map String)
        → Processor.is_processing job.state ≡ true
        → stored w.store job.id ≢ none
        → Ends p t w job
            (succeeds result m)
            (Processor.complete_job_successfully fl texts st p t w job result t.elapsed_ms m)
    complete_Ends p t w job result m h there =
        subst (Ends p t w job (succeeds result m))
          (sym (complete_lem fl texts st p t w job result t.elapsed_ms m h))
          (saved fl texts st stored laws p w job.state _ _
            (subst (λ id. stored w.store id ≢ none) (sym (add_exec_metadata-id _ m)) there))

    retry_Ends :
        (p : P) (t : T) (w : World) (job : Job) (error : String) (at : Option DateTime)
        → Processor.is_processing job.state ≡ true
        → stored w.store job.id ≢ none
        → Ends p t w job
            (when (may_retry p job none) error at)
            (Processor.handle_job_retry fl texts st p t w job error at)
    retry_Ends p t w job error at h there = elim (Bool-cases (may_retry p job none)) [
      | inl may ↦
          subst
            (λ b.
              Ends p t w job (when b error at)
                (Processor.handle_job_retry fl texts st p t w job error at))
            (sym may)
            (subst (Ends p t w job (retries error at))
              (sym (retry_lem fl texts st p t w job error at h may))
              (saved fl texts st stored laws p w job.state _ _ there))
      | inr may ↦
          subst
            (λ b.
              Ends p t w job (when b error at)
                (Processor.handle_job_retry fl texts st p t w job error at))
            (sym may)
            (subst (Ends p t w job (fails error))
              (sym (no_retry_lem fl texts st p t w job error at h may))
              (fail_Ends p t w job error h there))
    ]

    -- The branch on a named exception, as a timeout and an error take it.
    named_Ends :
        (p : P) (t : T) (w : World) (job : Job) (name error : String)
        → Processor.is_processing job.state ≡ true
        → stored w.store job.id ≢ none
        → Ends p t w job (when (may_retry p job (some name) && may_retry p job none) error none) (
            if may_retry p job (some name)
            then Processor.handle_job_retry fl texts st p t w job error none
            else Processor.fail_job_permanently fl texts st p t w job error none)
    named_Ends p t w job name error h there = elim (Bool-cases (may_retry p job (some name))) [
      | inl may ↦ rw may (retry_Ends p t w job error none h there)
      | inr may ↦ rw may (fail_Ends p t w job error h there)
    ]

    handle_Ends :
        (p : P) (t : T) (w : World) (job : Job) (o : Option (Result QmlError WorkerResult))
        → Processor.is_processing job.state ≡ true
        → stored w.store job.id ≢ none
        → Ends p t w job (verdict p job o) (Processor.handle_outcome fl texts st p t w job o)
    unfolding Processor.handle_outcome Processor.handle_job_timeout Processor.handle_execution_error
    handle_Ends p t w job none h there = named_Ends p t w job "TimeoutError" _ h there
    handle_Ends p t w job (some (ok (success result d m))) h there =
        complete_Ends p t w job result m h there
    handle_Ends p t w job (some (ok (retry error s at c))) h there =
        retry_Ends p t w job error at h there
    handle_Ends p t w job (some (ok (failure error s c))) h there =
        fail_Ends p t w job error h there
    handle_Ends p t w job (some (err e)) h there =
        named_Ends p t w job (Processor.error_type e) _ h there

    abbrev pub attempted : Job → Job
    attempted job = record job { attempt = Processor.next_attempt job.attempt }

    -- The verdict on a run of the job, a job without a worker included.
    abbrev pub decided : P → T → Job → Option Worker → Verdict
    decided p t job none = fails (Processor.no_worker fl texts st job.method)
    decided p t job (some worker) = verdict p job (Processor.outcome fl texts st p t worker job)

    written-id : (p : P) (t : T) (job : Job) (v : Verdict) → (written p t job v).id ≡ job.id
    written-id p t job (succeeds result m) = add_exec_metadata-id _ m
    written-id p t job (retries error at) = refl
    written-id p t job (fails error) = refl

    begin_lem :
        (p : P) (t : T) (w : World) (job : Job)
        → Processor.is_processing job.state ≡ true
        → Processor.begin fl texts st p t w job ≡ (w, job, ok tt)
    unfolding Processor.begin
    begin_lem p t w job h = rw h refl

    process_Ends :
        (p : P) (t : T) (w : World) (job : Job) (o : Option Worker)
        → Processor.is_processing job.state ≡ true
        → Processor.is_negative p.worker_config.job_timeout ≡ false
        → stored w.store job.id ≢ none
        → let r = Processor.process_with fl texts st p t w job o in
          let v = decided p t job o in
          (r.1 ≡ some (ok tt))
          × Settled fl texts st stored laws p w job.state (judged p t job v) (written p t job v) r.0
    unfolding Processor.process_with Processor.run_begun
    process_Ends p t w job none h up there =
        let (r, settled) =
          fail_Ends p t w job (Processor.no_worker fl texts st job.method) h there in
        (ap some r, settled)
    process_Ends p t w job (some worker) h up there =
        let o = Processor.outcome fl texts st p t worker job in
        let (r, settled) = handle_Ends p t w job o h there in
        subst (λ b. Goal worker (Processor.run_begun fl texts st p t worker b))
          (sym (begin_lem p t w job h))
          (subst
            (λ b. Goal worker (
              if b
              then (w, none)
              else Processor.returns fl texts st
                  (Processor.handle_outcome fl texts st p t w job o)))
            (sym up) (ap some r, settled))
      where
        Goal : Worker → World × Option (Result QmlError (Unit {0})) → Type 0
        Goal worker r =
            let v = decided p t job (some worker) in
            (r.1 ≡ some (ok tt))
            × Settled fl texts st stored laws p w job.state (judged p t job v) (written p t job v)
                r.0

    -- A run over a stored job in processing, with a timeout that is not negative, returns without an
    -- error and leaves behind exactly what its verdict says: the job under its own id in the state of
    -- the verdict, with one attempt more, and when the run is its last with the instant from which it
    -- may be deleted; every other job as it was; and one call of the hook, if there is one. The
    -- verdict is the worker's result, the timeout or the missing worker, after the retry policy.
    pub process_job_settles :
        (p : P) (t : T) (w : World) (given : Job)
        → Processor.is_processing given.state ≡ true
        → Processor.is_negative p.worker_config.job_timeout ≡ false
        → stored w.store given.id ≢ none
        → let job = attempted given in
          let v = decided p t job (get_worker p.worker_registry given.method) in
          let r = Processor.process_job fl texts st p t w given in
          (r.1 ≡ some (ok tt))
          × ((written p t job v).id ≡ given.id)
          × Settled fl texts st stored laws p w given.state
              (judged p t job v)
              (written p t job v)
              r.0
    unfolding Processor.process_job
    process_job_settles p t w given h up there =
        let job = attempted given in
        let o = get_worker p.worker_registry given.method in
        let (r, settled) = process_Ends p t w job o h up there in
        (r, written-id p t job (decided p t job o), settled)
