-- ===== src/Storage/Memory/Invariant/Locks.antt =====
-- The invariant under the operations that fetch, lock and put back jobs (src/storage/memory.rs).
use qml.Base.{ℕ, String, Bool, inl, inr, Option, List, arith, Bool-cases}
use qml.Base.Maps
use qml.Base.Maps.{Map}
use qml.Core.JobState.{JobState, DateTime}
use qml.Storage.Memory.State.{MemoryStorage}
use qml.Storage.Memory.Locker
use qml.Storage.Memory.Locker.{FetchClock}
use qml.Storage.Memory.Servers
use qml.Storage.Memory.Invariant.{
  IsValid, insert-JobsOk, fetch_loop_keeps, requeue_loop-Distinct, requeue_loop-Keyed,
  requeue_loop-locks,
}
use qml.Storage.Memory.Invariant.Jobs.{with_jobs_and_locks-IsValid, with_locks-IsValid}

pub requeue-IsValid :
    (test : JobState → Bool) (now_for : String → DateTime) (s : MemoryStorage)
    → IsValid s
    → let r = Locker.requeue_loop test now_for s.jobs s.locks in
      IsValid (record s { jobs = r.0.0; locks = r.0.1 })
requeue-IsValid test now_for s v =
    with_jobs_and_locks-IsValid s _ _ v
      (
        requeue_loop-Distinct test now_for s.jobs s.locks v.jobs_ok.0,
        requeue_loop-Keyed test now_for s.jobs s.locks v.jobs_ok.1,
      )
      (requeue_loop-locks test now_for s.jobs s.locks v.locks_once)

pub sweep_locks-IsValid :
    (s : MemoryStorage) (now : DateTime) → IsValid s → IsValid (Locker.cleanup_expired_locks s now)
unfolding Locker.cleanup_expired_locks
sweep_locks-IsValid s now v = with_locks-IsValid s _ v (Maps.retain-Distinct _ s.locks v.locks_once)

pub fetch-IsValid :
    (c : FetchClock) (s : MemoryStorage) (worker : String) (queues : Option (List String))
    → IsValid s
    → IsValid (Locker.fetch_and_lock_job c s worker queues).0
unfolding Locker.fetch_and_lock_job
fetch-IsValid c s worker queues v =
    let s' = Locker.cleanup_expired_locks s c.swept_at in
    let v' : IsValid s' = sweep_locks-IsValid s c.swept_at v in
    fetch_loop_keeps (λ jobs locks. IsValid (record s' { jobs = jobs; locks = locks })) c worker
      queues _ s'.jobs s'.locks v'
      λ job.
        with_jobs_and_locks-IsValid s' _ _ v'
          (unfold Locker.start in insert-JobsOk (Locker.start c worker job) s'.jobs v'.jobs_ok)
          (Maps.insert-Distinct job.id (Locker.new_lock c worker) s'.locks v'.locks_once)

pub lock_job-IsValid :
    (swept now : DateTime) (s : MemoryStorage) (id worker : String) (secs : ℕ)
    → IsValid s
    → IsValid (Locker.try_acquire_job_lock swept now s id worker secs).0
unfolding Locker.try_acquire_job_lock
lock_job-IsValid swept now s id worker secs v =
    let s' = Locker.cleanup_expired_locks s swept in
    let v' : IsValid s' = sweep_locks-IsValid s swept v in
    elim (Bool-cases (Maps.contains_key id s'.locks)) [
      | inl e ↦ rw (e, Locker.try_acquire_job_lock) v'
      | inr e ↦
          rw (e, Locker.try_acquire_job_lock)
            (with_locks-IsValid s' _ v' (Maps.insert-Distinct id _ s'.locks v'.locks_once))
    ]

pub unlock_job-IsValid :
    (s : MemoryStorage) (id worker : String)
    → IsValid s
    → IsValid (Locker.release_job_lock s id worker).0
unfolding Locker.release_job_lock
unlock_job-IsValid s id worker v = ground (arith, Maps.remove-Distinct id s.locks v.locks_once)

pub requeue_stranded-IsValid :
    (now_for : String → DateTime) (s : MemoryStorage) (stale_before : DateTime)
    → IsValid s
    → IsValid (Locker.requeue_stranded_jobs now_for s stale_before).0
unfolding Locker.requeue_stranded_jobs
requeue_stranded-IsValid now_for s stale_before v = requeue-IsValid _ now_for s v

pub reclaim-IsValid :
    (now_for : String → DateTime) (s : MemoryStorage) (id : String)
    → IsValid s
    → IsValid (Servers.reclaim_jobs_from_server now_for s id).0
unfolding Servers.reclaim_jobs_from_server
reclaim-IsValid now_for s id v = requeue-IsValid _ now_for s v
