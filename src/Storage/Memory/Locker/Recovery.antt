-- ===== src/Storage/Memory/Locker/Recovery.antt =====
-- `requeue_stranded_jobs` and `reclaim_jobs_from_server` of src/storage/memory.rs: the way of a job
-- whose worker is gone.
use qml.Base.{
  ◌≡◌, ◌≢◌, refl, ◌∙◌, String, Bool, true, false, inl, inr, none, some, [], ◌∷◌, arith, length,
  filter, ◌<ℤ◌, before, before→<ℤ, <ℤ→before, List, if◌then◌else◌, eq_iff, Bool-cases,
}
use qml.Base.Maps
use qml.Base.Maps.{Map}
use qml.Core.JobState.{JobState, DateTime, new_enqueued}
use qml.Core.Job.{Job}
use qml.Storage.Memory.State.{MemoryStorage, JobLock}
use qml.Storage.Memory.Locker.{
  FetchClock, requeue, requeue_loop, is_stale, requeue_stranded_jobs, start,
}
use qml.Storage.Memory.Servers.{runs_on, reclaim_jobs_from_server}
use qml.Storage.Memory.Invariant.{IsValid, job_id, get-requeue_loop}

-- The lock of every job that is put back is gone, and no other.
get-requeue_locks :
    (test : JobState → Bool) (now_for : String → DateTime) (k : String) (jobs : Map Job)
    (locks : Map JobLock)
    → Maps.Distinct jobs
    → Maps.Keyed job_id jobs
    → Maps.get k (requeue_loop test now_for jobs locks).0.1 ≡ elim (Maps.get k jobs) [
      | none ↦ Maps.get k locks
      | some job ↦ if test job.state then none else Maps.get k locks
    ]
unfolding requeue_loop Maps.get
get-requeue_locks test now_for k [] locks d h = refl
get-requeue_locks test now_for k ((i, job) ∷ jobs) locks d h = elim (Bool-cases (test job.state)) [
  | inl t ↦
      let rest = get-requeue_locks test now_for k jobs (Maps.remove job.id locks) d.1 h.1 in
      rw (t, rest)
        (ground (arith, Maps.get-remove job.id k locks, eq_iff i k, eq_iff job.id k, h.0, d.0, t))
  | inr t ↦
      let rest = get-requeue_locks test now_for k jobs locks d.1 h.1 in
      rw (t, rest) (ground (arith, eq_iff i k, d.0, t))
]

requeue_loop_count :
    (test : JobState → Bool) (now_for : String → DateTime) (jobs : Map Job) (locks : Map JobLock)
    → (requeue_loop test now_for jobs locks).1
      ≡ length (filter (λ (job : Job). test job.state) (Maps.values jobs))
unfolding requeue_loop Maps.values
requeue_loop_count test now_for [] locks = refl
requeue_loop_count test now_for ((i, job) ∷ jobs) locks = ground (
  arith,
  requeue_loop_count test now_for jobs (if test job.state then Maps.remove job.id locks else locks),
)

module _ (test : JobState → Bool) (now_for : String → DateTime) (s : MemoryStorage)
    (v : IsValid s) where
  -- What the recovery loop leaves for a stored job.
  loop_effect :
      (k : String) (job : Job)
      → Maps.get k s.jobs ≡ some job
      → let r = requeue_loop test now_for s.jobs s.locks in
        (test job.state ≡ true
          → (Maps.get k r.0.0 ≡ some (requeue (now_for job.id) job)) × (Maps.get k r.0.1 ≡ none))
        × (test job.state ≡ false
            → (Maps.get k r.0.0 ≡ some job) × (Maps.get k r.0.1 ≡ Maps.get k s.locks))
  loop_effect k job stored =
      let j = get-requeue_loop test now_for k s.jobs s.locks in
      let l = get-requeue_locks test now_for k s.jobs s.locks v.jobs_ok.0 v.jobs_ok.1 in
      (
        (λ t. (j ∙ rw (stored, t), l ∙ rw (stored, t))),
        (λ t. (j ∙ rw (stored, t), l ∙ rw (stored, t))),
      )

-- In execution since before the instant.
abbrev pub IsStranded : DateTime → JobState → Type 0
IsStranded before (JobState.processing started _ _) = started <ℤ before
IsStranded before _ = ⊥

abbrev pub runs_since : DateTime → JobState → Bool
runs_since instant (JobState.processing started _ _) = before started instant
runs_since instant _ = false

is_stale-runs_since : (t : DateTime) (s : JobState) → is_stale t s ≡ runs_since t s
unfolding is_stale
is_stale-runs_since t (JobState.processing _ _ _) = refl
is_stale-runs_since t _ = refl

is_stale-IsStranded : (t : DateTime) (s : JobState) → IsStranded t s → is_stale t s ≡ true
unfolding is_stale
is_stale-IsStranded t (JobState.processing started _ _) h = <ℤ→before started t h
is_stale-IsStranded t _ h = absurd h

not_stale : (t : DateTime) (s : JobState) → ¬ IsStranded t s → is_stale t s ≡ false
unfolding is_stale
not_stale t (JobState.processing started _ _) h = elim (Bool-cases (before started t)) [
  | inl e ↦ absurd (h (before→<ℤ started t e))
  | inr e ↦ e
]
not_stale t _ h = refl

stale_count :
    (t : DateTime) (jobs : List Job)
    → length (filter (λ (j : Job). is_stale t j.state) jobs)
      ≡ length (filter (λ (j : Job). runs_since t j.state) jobs)
stale_count t [] = refl
stale_count t (j ∷ jobs) = ground (arith, is_stale-runs_since t j.state, stale_count t jobs)

-- The sweep at startup puts exactly the jobs back that have been processing since before
-- `stale_before`: such a job is enqueued again in its own queue and its lock is gone. Every other
-- job keeps its state and its lock. The result is the number of jobs put back.
pub requeue_stranded_lem :
    (now_for : String → DateTime) (s : MemoryStorage) (stale_before : DateTime) (k : String)
    (job : Job)
    → IsValid s
    → Maps.get k s.jobs ≡ some job
    → let r = requeue_stranded_jobs now_for s stale_before in
      (IsStranded stale_before job.state
        → (Maps.get k r.0.jobs
            ≡ some (record job { state = JobState.enqueued (now_for job.id) job.queue }))
          × (Maps.get k r.0.locks ≡ none))
      × (¬ IsStranded stale_before job.state
          → (Maps.get k r.0.jobs ≡ some job) × (Maps.get k r.0.locks ≡ Maps.get k s.locks))
      × (r.1 ≡ length (filter (λ j. runs_since stale_before j.state) (Maps.values s.jobs)))
unfolding requeue_stranded_jobs requeue new_enqueued
requeue_stranded_lem now_for s stale_before k job v stored =
    let e = loop_effect (is_stale stale_before) now_for s v k job stored in
    (
      (λ h. e.0 (is_stale-IsStranded stale_before job.state h)),
      (λ h. e.1 (not_stale stale_before job.state h)),
      requeue_loop_count (is_stale stale_before) now_for s.jobs s.locks
          ∙ stale_count stale_before (Maps.values s.jobs),
    )

-- A job that a fetch of this backend has started is never reclaimed from the server that ran it: it
-- carries the name "memory-storage", so the reclaim of a server of any other name leaves the job and
-- its lock as they are.
pub reclaim_misses :
    (c : FetchClock) (w : String) (now_for : String → DateTime) (s : MemoryStorage)
    (server_id : String) (job : Job) (k : String)
    → IsValid s
    → Maps.get k s.jobs ≡ some (start c w job)
    → server_id ≢ "memory-storage"
    → let r = reclaim_jobs_from_server now_for s server_id in
      (Maps.get k r.0.jobs ≡ some (start c w job)) × (Maps.get k r.0.locks ≡ Maps.get k s.locks)
unfolding reclaim_jobs_from_server
reclaim_misses c w now_for s server_id job k v stored other =
    (loop_effect (runs_on server_id) now_for s v k (start c w job) stored).1
      (unfold start runs_on in ground (arith, eq_iff "memory-storage" server_id))
