-- ===== src/Processing/Scheduler.antt =====
-- src/processing/scheduler.rs on the memory storage, whose claims cannot fail.
use qml.Base.{
  ℕ, suc, ◌≡◌, ◌≤◌, refl, sym, ap, subst, ◌∙◌, inl, inr, ◌+ℤ◌, ◌≤ℤ◌, at_most_false, String, true,
  some, arith, length, eq_iff, ◌<>◌,
}
use qml.Base.Maps
use qml.Core.JobState.{JobState, DateTime, Duration, new_scheduled, new_enqueued}
use qml.Core.Job.{Job, set_state}
use qml.Error.{QmlError, StorageError, Result, ok, err, map_err, storage_error_to_string}
use qml.Storage.Memory.State.{MemoryStorage}
use qml.Storage.Memory.Jobs.{enqueue, enqueue_insert, scheduled_due, retry_due}
use qml.Storage.Memory.Claim.{promote, claim_due, claim_due_scheduled_jobs, claim_due_retry_jobs}
use qml.Storage.Memory.Claim.Promotes.{claim_changes, claim_complete}
use qml.Storage.Memory.Invariant.{IsValid}
use qml.Storage.Memory.Invariant.Jobs.{insert-IsValid, claim-IsValid}

abbrev pub schedule_error : StorageError → QmlError
schedule_error e = QmlError.storage_error ("Failed to schedule job: " <> storage_error_to_string e)

-- After `set_state`: its error, or the job is enqueued.
unfoldable pub enqueue_scheduled :
    MemoryStorage → Job × Result QmlError (Unit {0}) → MemoryStorage × Result QmlError (Unit {0})
unfolding enqueue
enqueue_scheduled s (job, err e) = (s, err e)
enqueue_scheduled s (job, ok _) =
    let (stored, r) = enqueue s job in (stored, map_err schedule_error r)

unfoldable pub schedule_job :
    MemoryStorage → DateTime → Job → DateTime → String → MemoryStorage × Result QmlError (Unit {0})
unfolding enqueue_scheduled
schedule_job s now job execute_at reason =
    enqueue_scheduled s (set_state job (new_scheduled now execute_at reason))

-- `called_at` is the reading of `schedule_job_in`.
unfoldable pub schedule_job_in :
    MemoryStorage
    → DateTime
    → DateTime
    → Job
    → Duration
    → String
    → MemoryStorage × Result QmlError (Unit {0})
unfolding schedule_job
schedule_job_in s called_at now job delay reason =
    schedule_job s now job (called_at +ℤ delay) reason

-- One turn of the loop: the scheduled jobs that are due at `first`, then the retries due at `second`.
unfoldable pub tick :
    (String → DateTime)
    → (String → DateTime)
    → ℕ
    → MemoryStorage
    → DateTime
    → DateTime
    → MemoryStorage
unfolding claim_due_scheduled_jobs claim_due_retry_jobs
tick at_scheduled at_retry batch_size s first second =
    let promoted = (claim_due_scheduled_jobs at_scheduled s first batch_size).0 in
    (claim_due_retry_jobs at_retry promoted second batch_size).0

scheduled :
    (s : MemoryStorage) (now : DateTime) (job : Job) (execute_at : DateTime) (reason : String)
    → (schedule_job s now job execute_at reason).1 ≡ ok tt
    → (schedule_job s now job execute_at reason).0
      ≡ enqueue_insert s (record job { state = JobState.scheduled now execute_at reason })
unfolding schedule_job enqueue_scheduled enqueue set_state new_scheduled
scheduled s now job execute_at reason won = ground arith

retry_keeps_enqueued :
    (at : String → DateTime) (s : MemoryStorage) (now : DateTime) (batch : ℕ) (k : String)
    (job : Job) (since : DateTime) (queue : String)
    → IsValid s
    → Maps.get k s.jobs ≡ some job
    → job.state ≡ JobState.enqueued since queue
    → Maps.get k (claim_due (retry_due now) at s batch).0.jobs ≡ some job
unfolding retry_due
retry_keeps_enqueued at s now batch k job since queue v stored is =
    elim (claim_changes (retry_due now) at s batch v k) [
      | inl same ↦ same ∙ stored
      | inr (other, there, due, _) ↦
          let q : other ≡ job = cc in
          let d : retry_due now (JobState.enqueued since queue) ≡ true =
            subst (λ x. retry_due now x ≡ true) (ap (λ (j : Job). j.state) q ∙ is) due in
          absurd (cc)
    ]

ticked :
    (at at' : String → DateTime) (batch : ℕ) (s : MemoryStorage) (now first second : DateTime)
    (job : Job) (execute_at : DateTime) (reason : String)
    → IsValid s
    → Maps.get job.id s.jobs ≡ some job
    → job.state ≡ JobState.scheduled now execute_at reason
    → execute_at ≤ℤ first
    → length s.jobs ≤ batch
    → Maps.get job.id (tick at at' batch s first second).jobs
      ≡ some (record job { state = JobState.enqueued (at job.id) job.queue })
unfolding tick claim_due_scheduled_jobs claim_due_retry_jobs
ticked at at' batch s now first second job execute_at reason v stored is due room =
    retry_keeps_enqueued at' (claim_due (scheduled_due first) at s batch).0 second batch job.id
      (record job { state = JobState.enqueued (at job.id) job.queue }) (at job.id) job.queue
      (claim-IsValid (scheduled_due first) at s batch v)
      (claim_complete (scheduled_due first) at s batch v job.id job room stored ready
        ∙ unfold promote new_enqueued in refl)
      refl
  where
    ready : scheduled_due first job.state ≡ true
    ready = unfold scheduled_due in rw is (ground (arith, at_most_false execute_at first))

inserted : (s : MemoryStorage) (job : Job) → Maps.get job.id (enqueue_insert s job).jobs ≡ some job
unfolding enqueue_insert
inserted s job = ground (arith, Maps.get-insert job.id job.id job s.jobs, eq_iff job.id job.id)

room_left :
    (s : MemoryStorage) (job : Job) (batch : ℕ)
    → suc (length s.jobs) ≤ batch
    → length (enqueue_insert s job).jobs ≤ batch
unfolding enqueue_insert
room_left s job batch h = ground (arith, Maps.length-insert job.id job s.jobs)

-- A job that is scheduled reaches its queue: when `schedule_job` reports success, the first turn of
-- the scheduler at or after the time of execution, with room in its batch for all jobs, leaves the
-- job enqueued in its own queue, changed in nothing but its state.
pub schedule_job-tick :
    (at at' : String → DateTime) (batch_size : ℕ) (s : MemoryStorage) (now first second : DateTime)
    (job : Job) (execute_at : DateTime) (reason : String)
    → IsValid s
    → (schedule_job s now job execute_at reason).1 ≡ ok tt
    → execute_at ≤ℤ first
    → suc (length s.jobs) ≤ batch_size
    → Maps.get job.id
        (tick at at' batch_size (schedule_job s now job execute_at reason).0 first second).jobs
      ≡ some (record job { state = JobState.enqueued (at job.id) job.queue })
schedule_job-tick at at' batch s now first second job execute_at reason v won due room =
    let waiting = record job { state = JobState.scheduled now execute_at reason } in
    subst
      (λ s'.
        Maps.get job.id (tick at at' batch s' first second).jobs
        ≡ some (record job { state = JobState.enqueued (at job.id) job.queue }))
      (sym (scheduled s now job execute_at reason won))
      (ticked at at' batch (enqueue_insert s waiting) now first second waiting execute_at reason
        (insert-IsValid s waiting v) (inserted s waiting) refl due (room_left s waiting batch room))
