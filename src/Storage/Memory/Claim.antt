-- ===== src/Storage/Memory/Claim.antt =====
-- `claim_due_scheduled_jobs` and `claim_due_retry_jobs` (src/storage/memory.rs): one critical
-- section that selects the due jobs and moves them to `Enqueued`. `now_for id` is the reading of the
-- clock that `JobState::enqueued` makes for the job.
pub mod Selection
pub mod Promotes
pub mod Again
use qml.Base.{ℕ, String, Bool, true, Option, none, some, List, [], ◌∷◌, map, filter, take}
use qml.Base.Maps
use qml.Base.Maps.{Map}
use qml.Base.Sort.{sort_by}
use qml.Core.JobState.{JobState, DateTime, new_enqueued}
use qml.Core.Job.{Job}
use qml.Storage.Memory.State.{MemoryStorage, goes_first}
use qml.Storage.Memory.Jobs.{scheduled_due, retry_due}

-- `jobs[a]` and `jobs[b]` panic on a missing key, which the keys of due jobs are not.
unfoldable pub goes_first_by_id : Map Job → String → String → Bool
goes_first_by_id jobs a b = elim (Maps.get a jobs) [
  | none ↦ true
  | some ja ↦ elim (Maps.get b jobs) [ none ↦ true | some jb ↦ goes_first ja jb ]
]

unfoldable pub due_ids : (JobState → Bool) → Map Job → ℕ → List String
unfolding goes_first_by_id
due_ids due jobs limit = take limit (
    sort_by (goes_first_by_id jobs)
      (map (λ (job : Job). job.id) (filter (λ job. due job.state) (Maps.values jobs))))

unfoldable pub promote : (String → DateTime) → Job → Job
unfolding new_enqueued
promote now_for job = record job { state = new_enqueued (now_for job.id) job.queue }

unfoldable pub claim_loop : (String → DateTime) → List String → Map Job → Map Job × List Job
unfolding promote
claim_loop now_for [] jobs = (jobs, [])
claim_loop now_for (id ∷ ids) jobs = elim (Maps.get id jobs) [
  | none ↦ claim_loop now_for ids jobs
  | some job ↦
      let (jobs', claimed) = claim_loop now_for ids (Maps.insert id (promote now_for job) jobs) in
      (jobs', promote now_for job ∷ claimed)
]

unfoldable pub claim_due :
    (JobState → Bool) → (String → DateTime) → MemoryStorage → ℕ → MemoryStorage × List Job
unfolding due_ids claim_loop
claim_due due now_for s limit =
    let (jobs', claimed) = claim_loop now_for (due_ids due s.jobs limit) s.jobs in
    (record s { jobs = jobs' }, claimed)

unfoldable pub claim_due_scheduled_jobs :
    (String → DateTime) → MemoryStorage → DateTime → ℕ → MemoryStorage × List Job
unfolding claim_due
claim_due_scheduled_jobs now_for s now limit = claim_due (scheduled_due now) now_for s limit

unfoldable pub claim_due_retry_jobs :
    (String → DateTime) → MemoryStorage → DateTime → ℕ → MemoryStorage × List Job
unfolding claim_due
claim_due_retry_jobs now_for s now limit = claim_due (retry_due now) now_for s limit
