-- ===== src/Dashboard/Service/Statistics.antt =====
-- `get_job_statistics` of src/dashboard/service.rs.
use qml.Base.{ℕ, suc, ◌+◌, ◌≡◌, refl, List, [], ◌∷◌, arith, length, filter, if◌then◌else◌}
use qml.Base.Maps
use qml.Core.JobState.{JobStateKind, JobStateKind-discrete, kind}
use qml.Core.Job.{Job}
use qml.Storage.Memory.State.{MemoryStorage, same_kind, filter_jobs_by_state, len}
use qml.Storage.Memory.Jobs.{bump, count_loop, get_job_counts}
use qml.Dashboard.Service.{JobStatistics, no_statistics, add_count, add_counts, get_job_statistics}

-- The field of a kind.
abbrev pub field : JobStateKind → JobStatistics → ℕ
field JobStateKind.enqueued st = st.enqueued
field JobStateKind.processing st = st.processing
field JobStateKind.succeeded st = st.succeeded
field JobStateKind.failed st = st.failed
field JobStateKind.deleted st = st.deleted
field JobStateKind.scheduled st = st.scheduled
field JobStateKind.awaiting_retry st = st.awaiting_retry

-- All that a list of counts holds for a kind, and for all kinds.
sum_of : JobStateKind → List (JobStateKind × ℕ) → ℕ
sum_of k [] = 0
sum_of k ((l, n) ∷ counts) = (if same_kind l k then n else 0) + sum_of k counts

sum_all : List (JobStateKind × ℕ) → ℕ
sum_all [] = 0
sum_all ((l, n) ∷ counts) = n + sum_all counts

sum_of-bump :
    (k l : JobStateKind) (counts : List (JobStateKind × ℕ))
    → sum_of k (bump l counts) ≡ (if same_kind l k then 1 else 0) + sum_of k counts
unfolding bump sum_of
sum_of-bump k l [] = ground arith
sum_of-bump k l ((m, n) ∷ counts) = ground (arith, sum_of-bump k l counts)

sum_all-bump :
    (l : JobStateKind) (counts : List (JobStateKind × ℕ))
    → sum_all (bump l counts) ≡ suc (sum_all counts)
unfolding bump sum_all
sum_all-bump l [] = refl
sum_all-bump l ((m, n) ∷ counts) = ground (arith, sum_all-bump l counts)

sum_of-count_loop :
    (k : JobStateKind) (jobs : List Job) (counts : List (JobStateKind × ℕ))
    → sum_of k (count_loop jobs counts)
      ≡ sum_of k counts + length (filter (λ (job : Job). same_kind (kind job.state) k) jobs)
unfolding count_loop
sum_of-count_loop k [] counts = omega arith
sum_of-count_loop k (job ∷ jobs) counts = ground (
  arith,
  sum_of-count_loop k jobs (bump (kind job.state) counts),
  sum_of-bump k (kind job.state) counts,
)

sum_all-count_loop :
    (jobs : List Job) (counts : List (JobStateKind × ℕ))
    → sum_all (count_loop jobs counts) ≡ sum_all counts + length jobs
unfolding count_loop
sum_all-count_loop [] counts = omega arith
sum_all-count_loop (job ∷ jobs) counts = omega (
  arith,
  sum_all-count_loop jobs (bump (kind job.state) counts),
  sum_all-bump (kind job.state) counts,
)

field-add_count :
    (k l : JobStateKind) (n : ℕ) (st : JobStatistics)
    → field k (add_count l n st) ≡ field k st + (if same_kind l k then n else 0)
unfolding JobStateKind-discrete
field-add_count k l n st = ground arith

total-add_count :
    (l : JobStateKind) (n : ℕ) (st : JobStatistics) → (add_count l n st).total_jobs ≡ st.total_jobs
total-add_count l n st = ground arith

field-total :
    (k : JobStateKind) (n : ℕ) (st : JobStatistics)
    → field k (record st { total_jobs = n }) ≡ field k st
field-total k n st = ground arith

field-add_counts :
    (k : JobStateKind) (counts : List (JobStateKind × ℕ)) (st : JobStatistics)
    → field k (add_counts counts st) ≡ field k st + sum_of k counts
unfolding add_counts sum_of
field-add_counts k [] st = omega arith
field-add_counts k ((l, n) ∷ counts) st = omega (
  arith,
  field-add_counts k counts (add_count l n (record st { total_jobs = st.total_jobs + n })),
  field-add_count k l n (record st { total_jobs = st.total_jobs + n }),
  field-total k (st.total_jobs + n) st,
)

total-add_counts :
    (counts : List (JobStateKind × ℕ)) (st : JobStatistics)
    → (add_counts counts st).total_jobs ≡ st.total_jobs + sum_all counts
unfolding add_counts sum_all
total-add_counts [] st = omega arith
total-add_counts ((l, n) ∷ counts) st = omega (
  arith,
  total-add_counts counts (add_count l n (record st { total_jobs = st.total_jobs + n })),
  total-add_count l n (record st { total_jobs = st.total_jobs + n }),
)

field-none : (k : JobStateKind) → field k no_statistics ≡ 0
field-none k = ground arith

-- The statistics of the dashboard are right: the field of each kind is the number of stored jobs in
-- that kind, and the total is the number of stored jobs.
pub get_job_statistics_lem :
    (s : MemoryStorage) (k : JobStateKind)
    → (field k (get_job_statistics s) ≡ length (filter_jobs_by_state s.jobs k))
      × ((get_job_statistics s).total_jobs ≡ len s)
unfolding get_job_statistics get_job_counts filter_jobs_by_state len sum_of sum_all
get_job_statistics_lem s k = (
  omega (
    arith,
    field-add_counts k (count_loop (Maps.values s.jobs) []) no_statistics,
    field-none k,
    sum_of-count_loop k (Maps.values s.jobs) [],
  ),
  omega (
    arith,
    total-add_counts (count_loop (Maps.values s.jobs) []) no_statistics,
    sum_all-count_loop (Maps.values s.jobs) [],
    Maps.length-values s.jobs,
  ),
)
