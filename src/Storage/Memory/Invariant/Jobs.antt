-- ===== src/Storage/Memory/Invariant/Jobs.antt =====
-- The invariant under the operations on jobs (src/storage/memory.rs).
use qml.Base.{ℕ, String, Bool, inl, inr, arith, Bool-cases}
use qml.Base.Maps
use qml.Base.Maps.{Map}
use qml.Core.JobState.{JobState, JobStateKind, DateTime}
use qml.Core.Job.{Job}
use qml.Storage.Memory.State.{MemoryStorage, JobLock, is_at_capacity}
use qml.Storage.Memory.Jobs
use qml.Storage.Memory.Claim.{claim_due, due_ids}
use qml.Storage.Memory.Invariant.{IsValid, JobsOk, insert-JobsOk, claim_loop-JobsOk}

pub update-IsValid : (s : MemoryStorage) (job : Job) → IsValid s → IsValid (Jobs.update s job).0
unfolding Jobs.update
update-IsValid s job v = ground (arith, insert-JobsOk job s.jobs v.jobs_ok)

pub swap-IsValid :
    (s : MemoryStorage) (job : Job) (k : JobStateKind)
    → IsValid s
    → IsValid (Jobs.update_if_state s job k).0
unfolding Jobs.update_if_state
swap-IsValid s job k v = ground (arith, insert-JobsOk job s.jobs v.jobs_ok)

pub insert-IsValid :
    (s : MemoryStorage) (job : Job) → IsValid s → IsValid (Jobs.enqueue_insert s job)
unfolding Jobs.enqueue_insert
insert-IsValid s job v = ground (arith, insert-JobsOk job s.jobs v.jobs_ok)

pub enqueue-IsValid : (s : MemoryStorage) (job : Job) → IsValid s → IsValid (Jobs.enqueue s job).0
unfolding Jobs.enqueue
enqueue-IsValid s job v = elim (Bool-cases (is_at_capacity s)) [
  | inl e ↦ rw (e, Jobs.enqueue) v
  | inr e ↦ rw (e, Jobs.enqueue) (insert-IsValid s job v)
]

pub delete-IsValid : (s : MemoryStorage) (id : String) → IsValid s → IsValid (Jobs.delete s id).0
unfolding Jobs.delete
delete-IsValid s id v = record {
  jobs_ok =
      (Maps.remove-Distinct id s.jobs v.jobs_ok.0, Maps.AllEntries-remove _ id s.jobs v.jobs_ok.1);
  locks_once = v.locks_once;
  recurring_once = v.recurring_once;
  recurring_keyed = v.recurring_keyed;
  servers_once = v.servers_once;
  servers_keyed = v.servers_keyed;
  named_once = v.named_once;
}

pub with_jobs-IsValid :
    (s : MemoryStorage) (jobs : Map Job)
    → IsValid s
    → JobsOk jobs
    → IsValid (record s { jobs = jobs })
with_jobs-IsValid s jobs v h = ground arith

pub with_jobs_and_locks-IsValid :
    (s : MemoryStorage) (jobs : Map Job) (locks : Map JobLock)
    → IsValid s
    → JobsOk jobs
    → Maps.Distinct locks
    → IsValid (record s { jobs = jobs; locks = locks })
with_jobs_and_locks-IsValid s jobs locks v h d = ground arith

pub with_locks-IsValid :
    (s : MemoryStorage) (locks : Map JobLock)
    → IsValid s
    → Maps.Distinct locks
    → IsValid (record s { locks = locks })
with_locks-IsValid s locks v d = ground arith

pub claim-IsValid :
    (due : JobState → Bool) (now_for : String → DateTime) (s : MemoryStorage) (limit : ℕ)
    → IsValid s
    → IsValid (claim_due due now_for s limit).0
unfolding claim_due
claim-IsValid due now_for s limit v =
    with_jobs-IsValid s _ v (claim_loop-JobsOk now_for (due_ids due s.jobs limit) s.jobs v.jobs_ok)

pub expire-IsValid :
    (s : MemoryStorage) (now : DateTime) → IsValid s → IsValid (Jobs.delete_expired_jobs s now).0
unfolding Jobs.delete_expired_jobs
expire-IsValid s now v = with_jobs-IsValid s _ v (
  Maps.retain-Distinct (Jobs.unexpired now) s.jobs v.jobs_ok.0,
  Maps.AllEntries-retain _ (Jobs.unexpired now) s.jobs v.jobs_ok.1,
)
