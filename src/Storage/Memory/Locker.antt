-- ===== src/Storage/Memory/Locker.antt =====
-- `JobLocker` (src/storage/memory.rs). The readings of the clock are arguments.
pub mod Recovery
use qml.Base.{
  ℕ, zero, suc, ◌+◌, min, ℤ, pos, ◌+ℤ◌, ◌*ℤ◌, String, Bool, true, false, not, ◌&&◌, Option, none,
  some, List, [], ◌∷◌, before, if◌then◌else◌, ◌==◌,
}
use qml.Base.Maps
use qml.Base.Maps.{Map}
use qml.Core.JobState.{JobState, DateTime, new_enqueued}
use qml.Core.Job.{Job, as_i64}
use qml.Storage.Memory.State.{MemoryStorage, JobLock, get_available_jobs_internal}

-- The readings of one call of `fetch_and_lock_job`, in the order of the code: for the sweep of the
-- locks, for the list of ready jobs, for the expiry of the lock and for `started_at`.
pub record FetchClock : Type 0 where
  pub swept_at : DateTime
  pub seen_at : DateTime
  pub locked_at : DateTime
  pub started_at : DateTime

unfoldable pub cleanup_expired_locks : MemoryStorage → DateTime → MemoryStorage
cleanup_expired_locks s now = record s {
  locks = Maps.retain (λ lock. before now lock.expires_at) s.locks;
}

abbrev pub contains : List String → String → Bool
contains [] q = false
contains (x ∷ xs) q = if x == q then true else contains xs q

-- No filter, or an empty one, lets every queue through.
unfoldable pub queue_allows : Option (List String) → String → Bool
queue_allows none q = true
queue_allows (some []) q = true
queue_allows (some (x ∷ xs)) q = contains (x ∷ xs) q

abbrev pub lock_timeout : ℤ
lock_timeout = pos 1_800_000

unfoldable pub new_lock : FetchClock → String → JobLock
new_lock c worker_id = record { worker_id = worker_id; expires_at = c.locked_at +ℤ lock_timeout }

unfoldable pub start : FetchClock → String → Job → Job
start c worker_id job = record job {
  state = JobState.processing c.started_at worker_id "memory-storage";
}

-- The `for` loop over the ready jobs; a `let` holds the rest of the loop for each `continue`.
unfoldable pub fetch_loop :
    FetchClock
    → String
    → Option (List String)
    → List Job
    → Map Job
    → Map JobLock
    → (Map Job × Map JobLock) × Option Job
unfolding new_lock start
fetch_loop c worker_id queues [] jobs locks = ((jobs, locks), none)
fetch_loop c worker_id queues (job ∷ rest) jobs locks =
    let next = fetch_loop c worker_id queues rest jobs locks in
    if not (queue_allows queues job.queue)
    then next
    else if Maps.contains_key job.id locks
    then next
    else (
      (
        Maps.insert job.id (start c worker_id job) jobs,
        Maps.insert job.id (new_lock c worker_id) locks,
      ),
      some (start c worker_id job),
    )

unfoldable pub fetch_and_lock_job :
    FetchClock → MemoryStorage → String → Option (List String) → MemoryStorage × Option Job
unfolding cleanup_expired_locks fetch_loop get_available_jobs_internal
fetch_and_lock_job c s worker_id queues =
    let s' = cleanup_expired_locks s c.swept_at in
    let available = get_available_jobs_internal s'.jobs c.seen_at none in
    let ((jobs, locks), found) = fetch_loop c worker_id queues available s'.jobs s'.locks in
    (record s' { jobs = jobs; locks = locks }, found)

-- `timeout_seconds as i64` seconds, in milliseconds. A timeout over i64::MAX / 1000 seconds, for which
-- `chrono::Duration::seconds` panics, is not modelled.
unfoldable pub try_acquire_job_lock :
    DateTime → DateTime → MemoryStorage → String → String → ℕ → MemoryStorage × Bool
unfolding cleanup_expired_locks
try_acquire_job_lock swept_at now s job_id worker_id timeout_seconds =
    let s' = cleanup_expired_locks s swept_at in
    if Maps.contains_key job_id s'.locks then (s', false) else (
      record s' {
        locks =
            Maps.insert job_id
              (record {
                worker_id = worker_id;
                expires_at = now +ℤ as_i64 timeout_seconds *ℤ pos 1000;
              })
              s'.locks;
      },
      true,
    )

unfoldable pub release_job_lock : MemoryStorage → String → String → MemoryStorage × Bool
release_job_lock s job_id worker_id = elim (Maps.get job_id s.locks) [
  | none ↦ (s, false)
  | some lock ↦
      if lock.worker_id == worker_id
      then (record s { locks = Maps.remove job_id s.locks }, true)
      else (s, false)
]

abbrev pub unwrap_or : Option ℕ → ℕ → ℕ
unwrap_or none d = d
unwrap_or (some n) d = n

-- The rounds left, with the readings of each round; the loop breaks when no job is found.
unfoldable pub fetch_rounds :
    ℕ → (ℕ → FetchClock) → MemoryStorage → String → Option (List String) → MemoryStorage × List Job
unfolding fetch_and_lock_job
fetch_rounds zero clock s worker_id queues = (s, [])
fetch_rounds (suc n) clock s worker_id queues =
    let (s', found) = fetch_and_lock_job (clock n) s worker_id queues in
    elim found [
      | none ↦ (s', [])
      | some job ↦ let (s'', jobs) = fetch_rounds n clock s' worker_id queues in (s'', job ∷ jobs)
    ]

unfoldable pub fetch_available_jobs_atomic :
    (ℕ → FetchClock)
    → MemoryStorage
    → String
    → Option ℕ
    → Option (List String)
    → MemoryStorage × List Job
unfolding fetch_rounds
fetch_available_jobs_atomic clock s worker_id limit queues =
    fetch_rounds (min (unwrap_or limit 10) 100) clock s worker_id queues

-- `Utc::now()` is read inside `JobState::enqueued` for each job that is put back.
unfoldable pub requeue : DateTime → Job → Job
unfolding new_enqueued
requeue now job = record job { state = new_enqueued now job.queue }

unfoldable pub is_stale : DateTime → JobState → Bool
is_stale stale_before (JobState.processing started_at _ _) = before started_at stale_before
is_stale stale_before _ = false

-- The loop over `jobs.values_mut()` of `requeue_stranded_jobs` and `reclaim_jobs_from_server`,
-- which differ in the test alone: the jobs, the locks and the count.
unfoldable pub requeue_loop :
    (JobState → Bool) → (String → DateTime) → Map Job → Map JobLock → (Map Job × Map JobLock) × ℕ
unfolding requeue
requeue_loop test now_for [] locks = (([], locks), 0)
requeue_loop test now_for ((k, job) ∷ jobs) locks =
    let ((jobs', locks'), n) =
      requeue_loop test now_for jobs (if test job.state then Maps.remove job.id locks else locks) in
    if test job.state
    then (((k, requeue (now_for job.id) job) ∷ jobs', locks'), n + 1)
    else (((k, job) ∷ jobs', locks'), n)

unfoldable pub requeue_stranded_jobs :
    (String → DateTime) → MemoryStorage → DateTime → MemoryStorage × ℕ
unfolding requeue_loop is_stale
requeue_stranded_jobs now_for s stale_before =
    let ((jobs, locks), recovered) = requeue_loop (is_stale stale_before) now_for s.jobs s.locks in
    (record s { jobs = jobs; locks = locks }, recovered)
