-- ===== src/Storage/Memory/Jobs.antt =====
-- `MonitoringApi` and the plain operations of `JobStore` (src/storage/memory.rs).
pub mod Swap
pub mod Paging
pub mod Counts
pub mod Capacity
pub mod Expiry
use qml.Base.{
  ℕ, suc, ◌+◌, ◌-◌, ◌%◌, ◌^◌, min, String, Bool, true, false, Option, none, some, List, [], ◌∷◌,
  at_most, before, ltb, leb, length, filter, take, drop, if◌then◌else◌, ◌==◌, ◌<>◌, show,
}
use qml.Base.Maps
use qml.Base.Maps.{Map}
use qml.Base.Sort.{sort_by}
use qml.Core.JobState.{JobState, JobStateKind, DateTime, kind}
use qml.Core.Job.{Job}
use qml.Error.{StorageError, Result, ok, err}
use qml.Storage.Memory.State.{
  MemoryStorage, len, is_at_capacity, same_kind, filter_jobs_by_state, goes_first,
  get_available_jobs_internal,
}

unfoldable pub get : MemoryStorage → String → Result StorageError (Option Job)
get s job_id = ok (Maps.get job_id s.jobs)

unfoldable pub update : MemoryStorage → Job → MemoryStorage × Result StorageError (Unit {0})
update s job =
    if Maps.contains_key job.id s.jobs
    then (record s { jobs = Maps.insert job.id job s.jobs }, ok tt)
    else (s, err (StorageError.job_not_found job.id))

unfoldable pub update_if_state :
    MemoryStorage → Job → JobStateKind → MemoryStorage × Result StorageError Bool
update_if_state s job expected = elim (Maps.get job.id s.jobs) [
  | none ↦ (s, err (StorageError.job_not_found job.id))
  | some existing ↦
      if same_kind (kind existing.state) expected
      then (record s { jobs = Maps.insert job.id job s.jobs }, ok true)
      else (s, ok false)
]

unfoldable pub delete : MemoryStorage → String → MemoryStorage × Result StorageError Bool
delete s job_id =
    (record s { jobs = Maps.remove job_id s.jobs }, ok (Maps.is_some (Maps.get job_id s.jobs)))

abbrev pub newest_first : Job → Job → Bool
newest_first a b = at_most b.created_at a.created_at

abbrev pub unwrap_or_zero : Option ℕ → ℕ
unwrap_or_zero none = 0
unwrap_or_zero (some n) = n

-- usize has 64 bits, and a release build wraps.
abbrev pub usize_add : ℕ → ℕ → ℕ
usize_add a b = (a + b) % 2 ^ 64

-- The page of a sorted list; `none` is the panic of a slice whose start lies behind its end.
unfoldable pub page : List Job → Option ℕ → Option ℕ → Option (List Job)
page sorted limit offset =
    let start = unwrap_or_zero offset in
    let end : ℕ = elim limit [
      | none ↦ length sorted
      | some limit ↦ min (usize_add start limit) (length sorted)
    ] in
    if leb (length sorted) start
    then some []
    else if ltb end start
    then none
    else some (take (end - start) (drop start sorted))

unfoldable pub list : MemoryStorage → Option JobStateKind → Option ℕ → Option ℕ → Option (List Job)
unfolding page filter_jobs_by_state
list s state_filter limit offset =
    let filtered : List Job = elim state_filter [
      | none ↦ Maps.values s.jobs
      | some k ↦ filter_jobs_by_state s.jobs k
    ] in
    page (sort_by newest_first filtered) limit offset

-- `*counts.entry(k).or_insert(0) += 1`.
unfoldable pub bump : JobStateKind → List (JobStateKind × ℕ) → List (JobStateKind × ℕ)
bump k [] = (k, 1) ∷ []
bump k ((l, n) ∷ counts) = if same_kind l k then (l, n + 1) ∷ counts else (l, n) ∷ bump k counts

unfoldable pub count_loop : List Job → List (JobStateKind × ℕ) → List (JobStateKind × ℕ)
unfolding bump
count_loop [] counts = counts
count_loop (job ∷ jobs) counts = count_loop jobs (bump (kind job.state) counts)

unfoldable pub get_job_counts : MemoryStorage → List (JobStateKind × ℕ)
unfolding count_loop
get_job_counts s = count_loop (Maps.values s.jobs) []

-- `enqueue` reads the capacity under one guard and inserts under another.
unfoldable pub enqueue_insert : MemoryStorage → Job → MemoryStorage
enqueue_insert s job = record s { jobs = Maps.insert job.id job s.jobs }

unfoldable pub enqueue : MemoryStorage → Job → MemoryStorage × Result StorageError (Unit {0})
unfolding enqueue_insert is_at_capacity
enqueue s job =
    if is_at_capacity s
    then (
      s,
      err (
          StorageError.capacity_exceeded
            ("Memory storage is at capacity (" <> show (len s) <> " jobs)")),
    )
    else (enqueue_insert s job, ok tt)

unfoldable pub get_available_jobs : MemoryStorage → DateTime → Option ℕ → List Job
unfolding get_available_jobs_internal
get_available_jobs s now limit = get_available_jobs_internal s.jobs now limit

unfoldable pub scheduled_due : DateTime → JobState → Bool
scheduled_due now (JobState.scheduled _ enqueue_at _) = at_most enqueue_at now
scheduled_due now _ = false

unfoldable pub retry_due : DateTime → JobState → Bool
retry_due now (JobState.awaiting_retry _ retry_at _) = at_most retry_at now
retry_due now _ = false

unfoldable pub fetch_due_scheduled_jobs : MemoryStorage → DateTime → ℕ → List Job
unfolding scheduled_due
fetch_due_scheduled_jobs s now limit =
    take limit
      (sort_by goes_first (filter (λ job. scheduled_due now job.state) (Maps.values s.jobs)))

unfoldable pub fetch_due_retry_jobs : MemoryStorage → DateTime → ℕ → List Job
unfolding retry_due
fetch_due_retry_jobs s now limit =
    take limit (sort_by goes_first (filter (λ job. retry_due now job.state) (Maps.values s.jobs)))

-- `ts > now`; a job without an expiry is kept.
unfoldable pub unexpired : DateTime → Job → Bool
unexpired now job = elim job.expires_at [ none ↦ true | some ts ↦ before now ts ]

unfoldable pub delete_expired_jobs : MemoryStorage → DateTime → MemoryStorage × ℕ
unfolding unexpired
delete_expired_jobs s now =
    let jobs = Maps.retain (unexpired now) s.jobs in
    (record s { jobs = jobs }, length s.jobs - length jobs)
