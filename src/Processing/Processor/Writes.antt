-- ===== src/Processing/Processor/Writes.antt =====
-- What a run of the processor may write, on every branch of src/processing/processor.rs.
use qml.Base.{ℕ, ◌≡◌, refl, ◌∙◌, ◌+ℤ◌, String, Option, none, some, inl, inr, Bool-cases, ◌<>◌}
use qml.Base.Maps.{Map}
use qml.Core.JobState.{
  JobState, DateTime, is_final, can_transition_to, new_processing, new_succeeded, new_failed,
  new_awaiting_retry,
}
use qml.Core.Job.{Job, set_state}
use qml.Error.{QmlError, Result, ok, err}
use qml.Processing.Retry.{Floats}
use qml.Processing.Worker.{WorkerResult, success, retry, failure, Worker, get_worker}
use qml.Processing.Store.{JobStore}
use qml.Processing.Processor
use qml.Processing.Processor.Settled.{add_exec_metadata-id}

module _ (fl : Floats) (texts : Processor.Texts) (st : JobStore) (Q : st.S → Type 0) (k : String)
    (writes : (s : st.S) (job : Job) → job.id ≡ k → Q s → Q (st.update s job).0) where
  abbrev W : Type 0
  W = Processor.World fl texts st

  abbrev P : Type 0
  P = Processor.JobProcessor fl.F

  abbrev T : Type 0
  T = Processor.Readings fl.F

  -- A job in hand, of the identifier `k`, with the world as it is then.
  abbrev Good : W × Job × Result QmlError (Unit {0}) → Type 0
  Good m = Q m.0.store × (m.1.id ≡ k)

  save_keeps :
      (w : W) (job : Job) → job.id ≡ k → Q w.store → Q (Processor.save fl texts st w job).0.store
  unfolding Processor.save
  save_keeps w job e q = writes w.store job e q

  fire_keeps :
      (p : P) (w : W) (job : Job) (prev : JobState)
      → Q w.store
      → Q (Processor.fire_state_change_hook fl texts st p w job prev).store
  unfolding Processor.fire_state_change_hook
  fire_keeps p w job prev q = elim (Bool-cases p.on_state_change) [
    | inl e ↦ rw e q
    | inr e ↦ rw e q
  ]

  announce-Good :
      (p : P) (w : W) (prev : JobState) (m : Job × Result QmlError (Unit {0}))
      → Q w.store
      → m.0.id ≡ k
      → Good (Processor.announce fl texts st p w prev m)
  unfolding Processor.announce
  announce-Good p w prev (job, ok _) q e = (fire_keeps p w job prev q, e)
  announce-Good p w prev (job, err _) q e = (q, e)

  set_state-id : (job : Job) (s : JobState) → (set_state job s).0.id ≡ job.id
  unfolding set_state
  set_state-id job s = elim (Bool-cases (can_transition_to job.state s)) [
    | inl e ↦ rw e refl
    | inr e ↦ rw e refl
  ]

  apply_Good :
      (p : P) (w : W) (job : Job) (s : JobState)
      → Q w.store
      → job.id ≡ k
      → Good (Processor.apply_state_change fl texts st p w job s)
  unfolding Processor.apply_state_change
  apply_Good p w job s q e =
      announce-Good p w job.state (set_state job s) q (set_state-id job s ∙ e)

  and_then_keeps :
      (m : W × Job × Result QmlError (Unit {0})) (rest : W → Job → W × Result QmlError (Unit {0}))
      → Good m
      → ((w : W) (job : Job) → job.id ≡ k → Q w.store → Q (rest w job).0.store)
      → Q (Processor.and_then m rest).0.store
  unfolding Processor.and_then
  and_then_keeps (w, job, ok _) rest g h = h w job g.1 g.0
  and_then_keeps (w, job, err _) rest g h = g.0

  save_changed :
      (job : Job → Job)
      → ((j : Job) → (job j).id ≡ j.id)
      → (w : W) (changed : Job) → changed.id ≡ k
      → Q w.store
      → Q (Processor.save fl texts st w (job changed)).0.store
  save_changed job same w changed e q = save_keeps w (job changed) (same changed ∙ e) q

  -- A change of state, and the write of the job as `final` makes it of the changed one.
  change_keeps :
      (p : P) (w : W) (job : Job) (s : JobState) (final : Job → Job)
      → ((j : Job) → (final j).id ≡ j.id)
      → job.id ≡ k
      → Q w.store
      → Q
          (Processor.and_then
            (Processor.apply_state_change fl texts st p w job s)
            (λ w changed. Processor.save fl texts st w (final changed))).0.store
  change_keeps p w job s final same e q =
      and_then_keeps (Processor.apply_state_change fl texts st p w job s)
        (λ w changed. Processor.save fl texts st w (final changed)) (apply_Good p w job s q e)
        (save_changed final same)

  complete_keeps :
      (p : P) (t : T) (w : W) (job : Job) (r : Option String) (ms : ℕ) (m : Map String)
      → job.id ≡ k
      → Q w.store
      → Q (Processor.complete_job_successfully fl texts st p t w job r ms m).0.store
  unfolding Processor.complete_job_successfully
  complete_keeps p t w job r ms m e q = elim (Bool-cases (is_final job.state)) [
    | inl f ↦ rw f q
    | inr f ↦ rw f (
        change_keeps p w job (new_succeeded t.settled_at ms r)
          (λ j.
            Processor.add_exec_metadata
              (record j { expires_at = some (t.expiry_now +ℤ p.succeeded_ttl) }) m)
          (λ j.
            add_exec_metadata-id (record j { expires_at = some (t.expiry_now +ℤ p.succeeded_ttl) })
              m)
          e q)
  ]

  fail_keeps :
      (p : P) (t : T) (w : W) (job : Job) (error : String) (trace : Option String)
      → job.id ≡ k
      → Q w.store
      → Q (Processor.fail_job_permanently fl texts st p t w job error trace).0.store
  unfolding Processor.fail_job_permanently
  fail_keeps p t w job error trace e q = elim (Bool-cases (is_final job.state)) [
    | inl f ↦ rw f q
    | inr f ↦ rw f (
        change_keeps p w job (new_failed t.settled_at error trace)
          (λ j. record j { expires_at = some (t.expiry_now +ℤ p.failed_ttl) }) (λ j. refl) e q)
  ]

  await_keeps :
      (p : P) (t : T) (w : W) (job : Job) (s : JobState)
      → job.id ≡ k
      → Q w.store
      → let (changed, r) = set_state job s in
        Q
          (Processor.and_then
            (w, changed, r)
            (λ w changed.
              Processor.save fl texts st
                (Processor.fire_state_change_hook fl texts st p w changed job.state)
                changed)).0.store
  await_keeps p t w job s e q =
      and_then_keeps (w, (set_state job s).0, (set_state job s).1)
        (λ w changed.
          Processor.save fl texts st
            (Processor.fire_state_change_hook fl texts st p w changed job.state) changed)
        (q, set_state-id job s ∙ e)
        (λ w' changed e' q'.
          save_keeps (Processor.fire_state_change_hook fl texts st p w' changed job.state) changed
            e' (fire_keeps p w' changed job.state q'))

  retry_keeps :
      (p : P) (t : T) (w : W) (job : Job) (error : String) (at : Option DateTime)
      → job.id ≡ k
      → Q w.store
      → Q (Processor.handle_job_retry fl texts st p t w job error at).0.store
  unfolding Processor.handle_job_retry
  retry_keeps p t w job error at e q = elim (Bool-cases (is_final job.state)) [
    | inl f ↦ rw f q
    | inr f ↦ elim (Bool-cases (Processor.should_retry_attempt fl texts st p job none)) [
      | inl more ↦
          rw (f, more)
            (await_keeps p t w job
              (new_awaiting_retry t.settled_at (Processor.retry_time fl texts st p t job at) error)
              e q)
      | inr no_more ↦ rw (f, no_more) (rw f at (fail_keeps p t w job error none e q))
    ]
  ]

  outcome_keeps :
      (p : P) (t : T) (w : W) (job : Job) (o : Option (Result QmlError WorkerResult))
      → job.id ≡ k
      → Q w.store
      → Q (Processor.handle_outcome fl texts st p t w job o).0.store
  unfolding Processor.handle_outcome Processor.handle_job_timeout Processor.handle_execution_error
  outcome_keeps p t w job none e q =
      elim (Bool-cases (Processor.should_retry_attempt fl texts st p job (some "TimeoutError"))) [
        | inl a ↦ rw a (
            retry_keeps p t w job
              ("Job timed out after " <> texts.debug_duration p.worker_config.job_timeout) none e q)
        | inr a ↦ rw a (
            fail_keeps p t w job
              ("Job timed out after " <> texts.debug_duration p.worker_config.job_timeout) none e q)
      ]
  outcome_keeps p t w job (some (ok (success r _ m))) e q =
      complete_keeps p t w job r t.elapsed_ms m e q
  outcome_keeps p t w job (some (ok (retry error _ at _))) e q = retry_keeps p t w job error at e q
  outcome_keeps p t w job (some (ok (failure error _ _))) e q = fail_keeps p t w job error none e q
  outcome_keeps p t w job (some (err x)) e q =
      elim (Bool-cases
        (Processor.should_retry_attempt fl texts st p job (some (Processor.error_type x)))) [
          | inl a ↦ rw a (retry_keeps p t w job (texts.error_to_string x) none e q)
          | inr a ↦ rw a (fail_keeps p t w job (texts.error_to_string x) none e q)
        ]

  save_begun-Good :
      (m : W × Job × Result QmlError (Unit {0}))
      → Good m
      → Good (Processor.save_begun fl texts st m)
  unfolding Processor.save_begun
  save_begun-Good (w, job, ok _) g = (save_keeps w job g.1 g.0, g.1)
  save_begun-Good (w, job, err _) g = g

  begin-Good :
      (p : P) (t : T) (w : W) (job : Job)
      → job.id ≡ k
      → Q w.store
      → Good (Processor.begin fl texts st p t w job)
  unfolding Processor.begin
  begin-Good p t w job e q =
      let ns =
        new_processing t.processing_at p.worker_config.worker_id p.worker_config.server_name in
      elim (Bool-cases (Processor.is_processing job.state)) [
        | inl a ↦ rw a (q, e)
        | inr a ↦ rw a (
            save_begun-Good (Processor.apply_state_change fl texts st p w job ns)
              (apply_Good p w job ns q e))
      ]

  run_begun_keeps :
      (p : P) (t : T) (worker : Worker) (m : W × Job × Result QmlError (Unit {0}))
      → Good m
      → Q (Processor.run_begun fl texts st p t worker m).0.store
  unfolding Processor.run_begun
  run_begun_keeps p t worker (w, job, err _) g = g.0
  run_begun_keeps p t worker (w, job, ok _) g =
      elim (Bool-cases (Processor.is_negative p.worker_config.job_timeout)) [
        | inl a ↦ rw a g.0
        | inr a ↦
            rw a (outcome_keeps p t w job (Processor.outcome fl texts st p t worker job) g.1 g.0)
      ]

  process_with_keeps :
      (p : P) (t : T) (w : W) (job : Job) (o : Option Worker)
      → job.id ≡ k
      → Q w.store
      → Q (Processor.process_with fl texts st p t w job o).0.store
  unfolding Processor.process_with
  process_with_keeps p t w job none e q =
      fail_keeps p t w job (Processor.no_worker fl texts st job.method) none e q
  process_with_keeps p t w job (some worker) e q =
      run_begun_keeps p t worker (Processor.begin fl texts st p t w job) (begin-Good p t w job e q)

  -- Whatever a run of a job comes to, a refused transition and a panic included, it writes to the
  -- store by updates of that job alone: what such updates keep, the run keeps.
  pub process_job-keeps :
      (p : P) (t : T) (w : W) (given : Job)
      → given.id ≡ k
      → Q w.store
      → Q (Processor.process_job fl texts st p t w given).0.store
  unfolding Processor.process_job
  process_job-keeps p t w given e q =
      process_with_keeps p t w (record given { attempt = Processor.next_attempt given.attempt })
        (get_worker p.worker_registry given.method) e q
