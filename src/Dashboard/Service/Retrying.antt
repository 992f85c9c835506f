-- ===== src/Dashboard/Service/Retrying.antt =====
-- `retry_job` of src/dashboard/service.rs.
use qml.Base.{
  ◌≡◌, ◌≢◌, refl, sym, ap, subst, ◌∙◌, ◌≤ℤ◌, String, true, false, Option, none, some, arith,
  if◌then◌else◌, ◌==◌, eq_iff,
}
use qml.Base.Maps
use qml.Core.JobState.{JobState, JobStateKind, DateTime, kind, new_enqueued}
use qml.Core.Job.{Job}
use qml.Error.{ok, map_err}
use qml.Storage.Memory.State.{MemoryStorage}
use qml.Storage.Memory.Jobs.{delete_expired_jobs}
use qml.Storage.Memory.Jobs.Swap.{update_if_state_lem}
use qml.Storage.Memory.Jobs.Expiry.{Due, delete_expired_lem}
use qml.Storage.Memory.Invariant.{IsValid}
use qml.Storage.Memory.Invariant.Jobs.{swap-IsValid}
use qml.Dashboard.Service.{is_failed, service_error, read_failed, write_retry, retry_job}

failed_kind : (s : JobState) → is_failed s ≡ true → kind s ≡ JobStateKind.failed
failed_kind s h = ground arith

not_failed_kind : (s : JobState) → is_failed s ≡ false → kind s ≢ JobStateKind.failed
not_failed_kind s h = ground arith

reads :
    (s : MemoryStorage) (now : DateTime) (k : String) (job : Job)
    → Maps.get k s.jobs ≡ some job
    → is_failed job.state ≡ true
    → read_failed s now k ≡ some (record job { state = JobState.enqueued now job.queue })
unfolding read_failed new_enqueued
reads s now k job stored failed = rw (stored, read_failed, failed) refl

-- A retry that reads the job as failed, and writes after anything may have happened to the storage.
-- It takes effect exactly if the job is failed at that time too: then the job is enqueued as it was
-- read, with its attempts and its expiry, and every other job is as it was. If the job has moved on,
-- nothing changes and the answer is no.
pub write_retry_lem :
    (s s' : MemoryStorage) (now : DateTime) (k j : String) (job other : Job)
    → IsValid s
    → Maps.get k s.jobs ≡ some job
    → is_failed job.state ≡ true
    → Maps.get k s'.jobs ≡ some other
    → let r = write_retry s' (read_failed s now k) in
      (is_failed other.state ≡ true
        → (r.1 ≡ ok true)
          × (Maps.get j r.0.jobs ≡ (
              if k == j
              then some (record job { state = JobState.enqueued now job.queue })
              else Maps.get j s'.jobs)))
      × (is_failed other.state ≡ false → r ≡ (s', ok false))
unfolding write_retry
write_retry_lem s s' now k j job other v stored failed there =
    let next = record job { state = JobState.enqueued now job.queue } in
    let name : job.id ≡ k = Maps.AllEntries-get _ k job s.jobs v.jobs_ok.1 stored in
    let found : Maps.get next.id s'.jobs ≡ some other =
      subst (λ i. Maps.get i s'.jobs ≡ some other) (sym name) there in
    let swap = update_if_state_lem s' next other JobStateKind.failed j in
    (
      (λ still.
          let (won, left) = swap.2 found (failed_kind other.state still) in
          subst
            (λ o.
              ((write_retry s' o).1 ≡ ok true)
              × (Maps.get j (write_retry s' o).0.jobs
                  ≡ (if k == j then some next else Maps.get j s'.jobs)))
            (sym (reads s now k job stored failed))
            (
              ap (map_err service_error) won,
              left ∙ ap (λ i. if i == j then some next else Maps.get j s'.jobs) name,
            )),
      (λ moved.
          subst (λ o. write_retry s' o ≡ (s', ok false)) (sym (reads s now k job stored failed))
            (ap (λ r. (r.0, map_err service_error r.1))
              (swap.1 found (not_failed_kind other.state moved)))),
    )

write-IsValid : (s : MemoryStorage) (o : Option Job) → IsValid s → IsValid (write_retry s o).0
unfolding write_retry
write-IsValid s none v = v
write-IsValid s (some job) v = swap-IsValid s job JobStateKind.failed v

retry-IsValid :
    (s : MemoryStorage) (now : DateTime) (k : String) → IsValid s → IsValid (retry_job s now k).0
unfolding retry_job
retry-IsValid s now k v = write-IsValid s (read_failed s now k) v

-- A failed job keeps its expiry when the dashboard retries it, so a sweep after that instant deletes
-- the job while it waits in its queue.
pub retried_job_is_swept :
    (s : MemoryStorage) (now later expiry : DateTime) (k : String) (job : Job)
    → IsValid s
    → Maps.get k s.jobs ≡ some job
    → is_failed job.state ≡ true
    → job.expires_at ≡ some expiry
    → expiry ≤ℤ later
    → ((retry_job s now k).1 ≡ ok true)
      × (Maps.get k (retry_job s now k).0.jobs
          ≡ some (record job { state = JobState.enqueued now job.queue }))
      × (Maps.get k (delete_expired_jobs (retry_job s now k).0 later).0.jobs ≡ none)
unfolding retry_job
retried_job_is_swept s now later expiry k job v stored failed expires due =
    let next = record job { state = JobState.enqueued now job.queue } in
    let (won, left) = (write_retry_lem s s now k k job job v stored failed stored).0 failed in
    let queued : Maps.get k (retry_job s now k).0.jobs ≡ some next =
      left ∙ rw ((eq_iff k k).1 refl) refl in
    (
      won,
      queued,
      (delete_expired_lem (retry_job s now k).0 later k next (retry-IsValid s now k v) queued).0
          (subst (Due later) (sym expires) due),
    )
