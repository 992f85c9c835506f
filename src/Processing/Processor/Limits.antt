-- ===== src/Processing/Processor/Limits.antt =====
-- When `process_job` of src/processing/processor.rs gives a job up, and when it refuses to run one.
use qml.Base.{
  ◌+ℤ◌, ◌≡◌, ◌≢◌, ◌<◌, ◌⊎◌, refl, sym, ap, subst, ◌∙◌, String, Bool, true, false, ◌&&◌, Option,
  none, some, [], ◌∷◌, if◌then◌else◌, arith,
}
use qml.Base.Maps.{Map}
use qml.Core.JobState.{
  JobState, DateTime, is_final, can_transition_to, new_processing, new_succeeded, new_failed,
}
use qml.Core.Job.{Job, set_state, add_metadata}
use qml.Error.{QmlError, Result, ok, err}
use qml.Processing.Retry.{Floats, should_retry, max_attempts}
use qml.Processing.Worker.{WorkerResult, success, retry, failure, Worker, get_worker}
use qml.Processing.Store.{JobStore, StoreLaws}
use qml.Processing.Processor
use qml.Processing.Processor.Verdicts.{
  Verdict, succeeds, retries, fails, verdict, decided, attempted, written, judged,
  process_job_settles,
}

add_exec_metadata-rest :
    (job : Job) (m : Map String)
    → ((Processor.add_exec_metadata job m).state ≡ job.state)
      × ((Processor.add_exec_metadata job m).expires_at ≡ job.expires_at)
unfolding Processor.add_exec_metadata add_metadata
add_exec_metadata-rest job [] = (refl, refl)
add_exec_metadata-rest job ((key, value) ∷ rest) =
    add_exec_metadata-rest (add_metadata job _ value) rest

module _ (fl : Floats) (texts : Processor.Texts) (st : JobStore) where
  abbrev World : Type 0
  World = Processor.World fl texts st

  abbrev P : Type 0
  P = Processor.JobProcessor fl.F

  abbrev T : Type 0
  T = Processor.Readings fl.F

  abbrev IsLast : Verdict → Type 0
  IsLast (retries _ _) = ⊥
  IsLast _ = Unit

  both-IsLast :
      (b c : Bool) (error : String) (at : Option DateTime)
      → c ≡ false
      → IsLast (if b && c then retries error at else fails error)
  both-IsLast true c error at h = rw h tt
  both-IsLast false c error at h = tt

  IsLast-verdict :
      (p : P) (job : Job) (o : Option (Result QmlError WorkerResult))
      → Processor.should_retry_attempt fl texts st p job none ≡ false
      → IsLast (verdict fl texts st p job o)
  IsLast-verdict p job none h = both-IsLast _ _ _ none h
  IsLast-verdict p job (some (ok (success _ _ _))) h = tt
  IsLast-verdict p job (some (ok (retry _ _ _ _))) h = rw h tt
  IsLast-verdict p job (some (ok (failure _ _ _))) h = tt
  IsLast-verdict p job (some (err e)) h = both-IsLast _ _ _ none h

  -- Neither in processing nor allowed to get there.
  abbrev pub CannotStart : P → T → JobState → Type 0
  CannotStart p t s =
      (Processor.is_processing s ≡ false)
      × (can_transition_to s
            (new_processing t.processing_at p.worker_config.worker_id p.worker_config.server_name)
          ≡ false)

  set_state_refused :
      (job : Job) (s : JobState)
      → can_transition_to job.state s ≡ false
      → set_state job s ≡ (job, err (QmlError.invalid_state_transition job.state s))
  unfolding set_state
  set_state_refused job s h = rw h refl

  abbrev started : P → T → JobState
  started p t = new_processing t.processing_at p.worker_config.worker_id p.worker_config.server_name

  refused :
      (p : P) (t : T) (w : World) (job : Job)
      → CannotStart p t job.state
      → Processor.begin fl texts st p t w job
        ≡ (w, job, err (QmlError.invalid_state_transition job.state (started p t)))
  unfolding Processor.begin Processor.apply_state_change Processor.announce Processor.save_begun
  refused p t w job (h, shut) = rw h (
      ap (λ r. Processor.save_begun fl texts st (Processor.announce fl texts st p w job.state r))
        (set_state_refused job (started p t) shut))

  -- A job that is neither in processing nor enqueued is not run: when its method has a worker, the
  -- run reports the refused transition, and neither writes a job nor calls the hook.
  pub process_job_refuses :
      (p : P) (t : T) (w : World) (given : Job) (worker : Worker)
      → get_worker p.worker_registry given.method ≡ some worker
      → CannotStart p t given.state
      → Processor.process_job fl texts st p t w given ≡ (
        w,
        some (
            err (
              QmlError.invalid_state_transition given.state (
                new_processing t.processing_at p.worker_config.worker_id
                  p.worker_config.server_name))),
      )
  unfolding Processor.process_job Processor.process_with Processor.run_begun
  process_job_refuses p t w given worker has cannot =
      let job = record given { attempt = Processor.next_attempt given.attempt } in
      ap (λ o. Processor.process_with fl texts st p t w job o) has
      ∙ ap (λ b. Processor.run_begun fl texts st p t worker b) (refused p t w job cannot)

  module _ (stored : st.S → String → Option Job) (laws : StoreLaws st stored) where
    -- The job of this id is stored in a final state, with the instant from which it may be deleted.
    abbrev pub GivenUp : World → String → Type 0
    GivenUp w id =
        (final : Job) × (stored w.store id ≡ some final)
        × (is_final final.state ≡ true)
        × (final.expires_at ≢ none)

    written_last :
        (p : P) (t : T) (job : Job) (v : Verdict)
        → IsLast v
        → (is_final (written fl texts st p t job v).state ≡ true)
          × ((written fl texts st p t job v).expires_at ≢ none)
    unfolding new_succeeded new_failed
    written_last p t job (succeeds result m) h =
        let final = record (judged fl texts st p t job (succeeds result m)) {
          expires_at = some (t.expiry_now +ℤ p.succeeded_ttl);
        } in
        let (state, expires) = add_exec_metadata-rest final m in
        (ap is_final state, subst (λ o. o ≢ none) (sym expires) (λ q. cc))
    written_last p t job (retries error at) h = absurd h
    written_last p t job (fails error) h = (refl, (λ q. cc))

    decided-IsLast :
        (p : P) (t : T) (job : Job) (o : Option Worker)
        → Processor.should_retry_attempt fl texts st p job none ≡ false
        → IsLast (decided fl texts st stored laws p t job o)
    decided-IsLast p t job none h = tt
    decided-IsLast p t job (some worker) h =
        IsLast-verdict p job (Processor.outcome fl texts st p t worker job) h

    gives_up :
        (p : P) (t : T) (w : World) (given : Job)
        → Processor.is_processing given.state ≡ true
        → Processor.is_negative p.worker_config.job_timeout ≡ false
        → stored w.store given.id ≢ none
        → Processor.should_retry_attempt fl texts st p
            (attempted fl texts st stored laws given)
            none
          ≡ false
        → GivenUp (Processor.process_job fl texts st p t w given).0 given.id
    gives_up p t w given h up there denied =
        let job = attempted fl texts st stored laws given in
        let v =
          decided fl texts st stored laws p t job (get_worker p.worker_registry given.method) in
        let (_, same, settled) =
          process_job_settles fl texts st stored laws p t w given h up there in
        let last = written_last p t job v (decided-IsLast p t job _ denied) in
        let after = (Processor.process_job fl texts st p t w given).0 in
        (
          written fl texts st p t job v,
          subst (λ id. stored after.store id ≡ some (written fl texts st p t job v)) same
              settled.is_stored,
          last.0,
          last.1,
        )

    -- The attempt is past the job's own limit, if it has one, or past the policy's.
    abbrev pub PastLimit : P → Job → Type 0
    PastLimit p job =
        ((0 < job.max_retries) × (job.max_retries < job.attempt))
        ⊎ (max_attempts p.retry_policy.strategy < job.attempt)

    selective :
        (p : P) (job : Job)
        → p.retry_policy.retry_on_all_exceptions ≡ false
        → Processor.should_retry_attempt fl texts st p job none ≡ false
    unfolding Processor.should_retry_attempt should_retry
    selective p job h = ground arith

    -- Under a policy that does not retry all exceptions no stored job in processing is ever retried,
    -- whichever exceptions the policy lists as retryable: a run leaves it stored in a final state. The
    -- retry handler asks the policy a second time, without the name of the exception.
    pub listed_exceptions_are_not_retried :
        (p : P) (t : T) (w : World) (given : Job)
        → Processor.is_processing given.state ≡ true
        → Processor.is_negative p.worker_config.job_timeout ≡ false
        → stored w.store given.id ≢ none
        → p.retry_policy.retry_on_all_exceptions ≡ false
        → GivenUp (Processor.process_job fl texts st p t w given).0 given.id
    listed_exceptions_are_not_retried p t w given h up there all =
        gives_up p t w given h up there (selective p _ all)
