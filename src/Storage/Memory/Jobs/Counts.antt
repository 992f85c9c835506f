-- ===== src/Storage/Memory/Jobs/Counts.antt =====
-- `get_job_counts` of src/storage/memory.rs.
use qml.Base.{ℕ, suc, ◌+◌, ◌≡◌, refl, List, [], ◌∷◌, arith, length, filter, if◌then◌else◌}
use qml.Base.Maps
use qml.Core.JobState.{JobStateKind, kind}
use qml.Core.Job.{Job}
use qml.Storage.Memory.State.{MemoryStorage, same_kind, filter_jobs_by_state, len}
use qml.Storage.Memory.Jobs.{bump, count_loop, get_job_counts}

-- What the map of counts holds for a kind; a missing kind counts 0.
abbrev pub count_of : JobStateKind → List (JobStateKind × ℕ) → ℕ
count_of k [] = 0
count_of k ((l, n) ∷ counts) = if same_kind l k then n else count_of k counts

abbrev pub total : List (JobStateKind × ℕ) → ℕ
total [] = 0
total ((l, n) ∷ counts) = n + total counts

count_of-bump :
    (k l : JobStateKind) (counts : List (JobStateKind × ℕ))
    → count_of k (bump l counts) ≡ (if same_kind l k then 1 else 0) + count_of k counts
unfolding bump
count_of-bump k l [] = ground arith
count_of-bump k l ((m, n) ∷ counts) = ground (arith, count_of-bump k l counts)

total-bump :
    (l : JobStateKind) (counts : List (JobStateKind × ℕ))
    → total (bump l counts) ≡ suc (total counts)
unfolding bump
total-bump l [] = refl
total-bump l ((m, n) ∷ counts) = ground (arith, total-bump l counts)

count_of-count_loop :
    (k : JobStateKind) (jobs : List Job) (counts : List (JobStateKind × ℕ))
    → count_of k (count_loop jobs counts)
      ≡ count_of k counts + length (filter (λ (job : Job). same_kind (kind job.state) k) jobs)
unfolding count_loop
count_of-count_loop k [] counts = omega arith
count_of-count_loop k (job ∷ jobs) counts = ground (
  arith,
  count_of-count_loop k jobs (bump (kind job.state) counts),
  count_of-bump k (kind job.state) counts,
)

total-count_loop :
    (jobs : List Job) (counts : List (JobStateKind × ℕ))
    → total (count_loop jobs counts) ≡ total counts + length jobs
unfolding count_loop
total-count_loop [] counts = omega arith
total-count_loop (job ∷ jobs) counts = omega (
  arith,
  total-count_loop jobs (bump (kind job.state) counts),
  total-bump (kind job.state) counts,
)

-- The count of each kind is the number of stored jobs in that kind, and the counts add up to the
-- number of stored jobs.
pub get_job_counts_lem :
    (s : MemoryStorage) (k : JobStateKind)
    → (count_of k (get_job_counts s) ≡ length (filter_jobs_by_state s.jobs k))
      × (total (get_job_counts s) ≡ len s)
unfolding get_job_counts filter_jobs_by_state len
get_job_counts_lem s k = (
  omega (arith, count_of-count_loop k (Maps.values s.jobs) []),
  omega (arith, total-count_loop (Maps.values s.jobs) [], Maps.length-values s.jobs),
)
