-- ===== src/Storage/Memory/Invariant.antt =====
-- The state invariant of `MemoryStorage` (src/storage/memory.rs), with lemmas on its loops.
pub mod Jobs
pub mod Locks
pub mod Registry
use qml.Base.{
  ℕ, zero, suc, ◌≡◌, refl, sym, ap, String, Bool, true, false, not, ◌⊎◌, inl, inr, Option, none,
  some, List, [], ◌∷◌, arith, before, Bool-cases, Option-cases, if◌then◌else◌, min, eq_iff, ◌==◌,
}
use qml.Base.Maps
use qml.Base.Maps.{Map}
use qml.Core.JobState.{JobState, JobStateKind, DateTime}
use qml.Core.Job.{Job}
use qml.Core.Recurring.{RecurringJob}
use qml.Core.ServerInfo.{ServerInfo}
use qml.Storage.Config.{MemoryConfig}
use qml.Storage.Memory.State.{MemoryStorage, JobLock, with_config, clear, same_kind}
use qml.Storage.Memory.Claim.{promote, claim_loop, claim_due, due_ids}
use qml.Storage.Memory.Locker
use qml.Storage.Memory.Locker.{FetchClock, fetch_loop, requeue_loop}

abbrev pub job_id : Job → String
job_id job = job.id

abbrev pub recurring_id : RecurringJob → String
recurring_id r = r.id

abbrev pub server_key : ServerInfo → String
server_key i = i.server_id

-- The jobs stand once each under their identifiers.
abbrev pub JobsOk : Map Job → Type 0
JobsOk jobs = Maps.Distinct jobs × Maps.Keyed job_id jobs

pub record IsValid (s : MemoryStorage) : Type 0 where
  pub jobs_ok : JobsOk s.jobs
  pub locks_once : Maps.Distinct s.locks
  pub recurring_once : Maps.Distinct s.recurring
  pub recurring_keyed : Maps.Keyed recurring_id s.recurring
  pub servers_once : Maps.Distinct s.servers
  pub servers_keyed : Maps.Keyed server_key s.servers
  pub named_once : Maps.Distinct s.named_locks

pub insert-JobsOk :
    (job : Job) (jobs : Map Job) → JobsOk jobs → JobsOk (Maps.insert job.id job jobs)
insert-JobsOk job jobs (d, h) =
    (Maps.insert-Distinct job.id job jobs d, Maps.AllEntries-insert _ job.id job jobs refl h)

pub claim_loop-JobsOk :
    (now_for : String → DateTime) (ids : List String) (jobs : Map Job)
    → JobsOk jobs
    → JobsOk (claim_loop now_for ids jobs).0
unfolding claim_loop
claim_loop-JobsOk now_for [] jobs h = h
claim_loop-JobsOk now_for (id ∷ ids) jobs h = elim (Option-cases (Maps.get id jobs)) [
  | inl e ↦ rw (e, claim_loop) (claim_loop-JobsOk now_for ids jobs h)
  | inr (job, e) ↦
      rw (e, claim_loop)
        (claim_loop-JobsOk now_for ids (Maps.insert id (promote now_for job) jobs) (
          Maps.insert-Distinct id (promote now_for job) jobs h.0,
          Maps.AllEntries-insert _ id (promote now_for job) jobs
              (unfold promote in Maps.AllEntries-get _ id job jobs h.1 e) h.1,
        ))
]

-- What the loop of `fetch_and_lock_job` does to the maps: nothing, or one job and one lock.
pub fetch_loop_keeps {ℓ} :
    (P : Map Job → Map JobLock → Type ℓ) (c : FetchClock) (worker_id : String)
    (queues : Option (List String)) (available : List Job) (jobs : Map Job) (locks : Map JobLock)
    → P jobs locks
    → ((job : Job)
        → P
            (Maps.insert job.id (Locker.start c worker_id job) jobs)
            (Maps.insert job.id (Locker.new_lock c worker_id) locks))
    → let r = fetch_loop c worker_id queues available jobs locks in P r.0.0 r.0.1
unfolding fetch_loop
fetch_loop_keeps P c w q [] jobs locks same one = same
fetch_loop_keeps P c w q (job ∷ rest) jobs locks same one =
    elim (Bool-cases (not (Locker.queue_allows q job.queue))) [
      | inl e ↦ rw e (fetch_loop_keeps P c w q rest jobs locks same one)
      | inr e ↦ elim (Bool-cases (Maps.contains_key job.id locks)) [
        | inl l ↦ rw (e, l) (fetch_loop_keeps P c w q rest jobs locks same one)
        | inr l ↦ rw (e, l) (one job)
      ]
    ]

-- The loop that puts jobs back keeps every key, and each job its identifier.
pub get-requeue_loop :
    (test : JobState → Bool) (now_for : String → DateTime) (k : String) (jobs : Map Job)
    (locks : Map JobLock)
    → Maps.get k (requeue_loop test now_for jobs locks).0.0 ≡ elim (Maps.get k jobs) [
      | none ↦ none
      | some job ↦ if test job.state then some (Locker.requeue (now_for job.id) job) else some job
    ]
unfolding requeue_loop Maps.get
get-requeue_loop test now_for k [] locks = refl
get-requeue_loop test now_for k ((i, job) ∷ jobs) locks = ground (
  arith,
  get-requeue_loop test now_for k jobs (if test job.state then Maps.remove job.id locks else locks),
)

pub requeue_loop-Distinct :
    (test : JobState → Bool) (now_for : String → DateTime) (jobs : Map Job) (locks : Map JobLock)
    → Maps.Distinct jobs
    → Maps.Distinct (requeue_loop test now_for jobs locks).0.0
unfolding requeue_loop
requeue_loop-Distinct test now_for [] locks d = tt
requeue_loop-Distinct test now_for ((i, job) ∷ jobs) locks d =
    let locks' = if test job.state then Maps.remove job.id locks else locks in
    ground (
      arith,
      d.0,
      get-requeue_loop test now_for i jobs locks',
      requeue_loop-Distinct test now_for jobs locks' d.1,
    )

pub requeue_loop-Keyed :
    (test : JobState → Bool) (now_for : String → DateTime) (jobs : Map Job) (locks : Map JobLock)
    → Maps.Keyed job_id jobs
    → Maps.Keyed job_id (requeue_loop test now_for jobs locks).0.0
unfolding requeue_loop
requeue_loop-Keyed test now_for [] locks h = tt
requeue_loop-Keyed test now_for ((i, job) ∷ jobs) locks h = ground (
  arith,
  h.0,
  requeue_loop-Keyed test now_for jobs (if test job.state then Maps.remove job.id locks else locks)
      h.1,
)

pub requeue_loop-locks :
    (test : JobState → Bool) (now_for : String → DateTime) (jobs : Map Job) (locks : Map JobLock)
    → Maps.Distinct locks
    → Maps.Distinct (requeue_loop test now_for jobs locks).0.1
unfolding requeue_loop
requeue_loop-locks test now_for [] locks d = d
requeue_loop-locks test now_for ((i, job) ∷ jobs) locks d = elim (Bool-cases (test job.state)) [
  | inl e ↦ rw e (
      requeue_loop-locks test now_for jobs (Maps.remove job.id locks)
        (Maps.remove-Distinct job.id locks d))
  | inr e ↦ rw e (requeue_loop-locks test now_for jobs locks d)
]
