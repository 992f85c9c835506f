-- ===== src/Storage/Memory/Steps.antt =====
-- All operations of `MemoryStorage` that change state (src/storage/memory.rs) as one step, and runs
-- of them in any order. A step is one critical section, so a run is an interleaving of any number of
-- workers, schedulers and servers on one storage.
use qml.Base.{ℕ, String, Option, List, [], ◌∷◌, arith}
use qml.Core.JobState.{JobStateKind, DateTime}
use qml.Core.Job.{Job}
use qml.Core.Recurring.{RecurringJob}
use qml.Core.ServerInfo.{ServerInfo}
use qml.Storage.Config.{MemoryConfig}
use qml.Storage.Memory.State.{MemoryStorage, with_config, clear}
use qml.Storage.Memory.Jobs
use qml.Storage.Memory.Claim.{claim_due_scheduled_jobs, claim_due_retry_jobs}
use qml.Storage.Memory.Locker
use qml.Storage.Memory.Locker.{FetchClock}
use qml.Storage.Memory.Recurring
use qml.Storage.Memory.Servers
use qml.Storage.Memory.Leases
use qml.Storage.Memory.Invariant.{IsValid}
use qml.Storage.Memory.Invariant.Jobs as OnJobs
use qml.Storage.Memory.Invariant.Locks as OnLocks
use qml.Storage.Memory.Invariant.Registry as OnRegistry

pub data Call : Type 0 where
  updates : Job → Call
  swaps : Job → JobStateKind → Call
  deletes : String → Call
  enqueues : Job → Call
  -- The insertion of `enqueue` alone, after a check of the capacity made at any earlier time.
  inserts : Job → Call
  clears : Call
  claims_scheduled : (String → DateTime) → DateTime → ℕ → Call
  claims_retry : (String → DateTime) → DateTime → ℕ → Call
  expires : DateTime → Call
  requeues : (String → DateTime) → DateTime → Call
  fetches : FetchClock → String → Option (List String) → Call
  locks_job : DateTime → DateTime → String → String → ℕ → Call
  unlocks_job : String → String → Call
  upserts : RecurringJob → Call
  removes : String → Call
  fetches_recurring : DateTime → ℕ → Call
  registers : ServerInfo → Call
  heartbeats : String → DateTime → Call
  deregisters : String → Call
  reclaims : (String → DateTime) → String → Call
  acquires : DateTime → String → String → ℕ → Call
  releases : String → String → Call
  sweeps : DateTime → Call

unfoldable pub step : MemoryStorage → Call → MemoryStorage
step s (updates job) = (Jobs.update s job).0
step s (swaps job k) = (Jobs.update_if_state s job k).0
step s (deletes id) = (Jobs.delete s id).0
step s (enqueues job) = (Jobs.enqueue s job).0
step s (inserts job) = Jobs.enqueue_insert s job
step s clears = clear s
step s (claims_scheduled now_for now limit) = (claim_due_scheduled_jobs now_for s now limit).0
step s (claims_retry now_for now limit) = (claim_due_retry_jobs now_for s now limit).0
step s (expires now) = (Jobs.delete_expired_jobs s now).0
step s (requeues now_for stale_before) = (Locker.requeue_stranded_jobs now_for s stale_before).0
step s (fetches c worker queues) = (Locker.fetch_and_lock_job c s worker queues).0
step s (locks_job swept now id worker secs) =
    (Locker.try_acquire_job_lock swept now s id worker secs).0
step s (unlocks_job id worker) = (Locker.release_job_lock s id worker).0
step s (upserts r) = Recurring.upsert_recurring_job s r
step s (removes id) = (Recurring.remove_recurring_job s id).0
step s (fetches_recurring now limit) = (Recurring.fetch_due_recurring_jobs s now limit).0
step s (registers info) = Servers.register_server s info
step s (heartbeats id now) = (Servers.heartbeat_server s id now).0
step s (deregisters id) = (Servers.deregister_server s id).0
step s (reclaims now_for id) = (Servers.reclaim_jobs_from_server now_for s id).0
step s (acquires now resource owner ttl) = (Leases.try_acquire_lock now s resource owner ttl).0
step s (releases resource owner) = (Leases.release_lock s resource owner).0
step s (sweeps now) = (Leases.cleanup_expired_named_locks s now).0

unfoldable pub run : MemoryStorage → List Call → MemoryStorage
run s [] = s
run s (c ∷ cs) = run (step s c) cs

clear-IsValid : (s : MemoryStorage) → IsValid s → IsValid (clear s)
unfolding clear
clear-IsValid s v = ground arith

-- Every operation keeps the invariant: no key stands twice in a map, and every job, template and
-- server stands under its own identifier.
pub step-IsValid : (s : MemoryStorage) (c : Call) → IsValid s → IsValid (step s c)
unfolding step claim_due_scheduled_jobs claim_due_retry_jobs
step-IsValid s (updates job) v = OnJobs.update-IsValid s job v
step-IsValid s (swaps job k) v = OnJobs.swap-IsValid s job k v
step-IsValid s (deletes id) v = OnJobs.delete-IsValid s id v
step-IsValid s (enqueues job) v = OnJobs.enqueue-IsValid s job v
step-IsValid s (inserts job) v = OnJobs.insert-IsValid s job v
step-IsValid s clears v = clear-IsValid s v
step-IsValid s (claims_scheduled now_for now limit) v = OnJobs.claim-IsValid _ now_for s limit v
step-IsValid s (claims_retry now_for now limit) v = OnJobs.claim-IsValid _ now_for s limit v
step-IsValid s (expires now) v = OnJobs.expire-IsValid s now v
step-IsValid s (requeues now_for stale_before) v =
    OnLocks.requeue_stranded-IsValid now_for s stale_before v
step-IsValid s (fetches c worker queues) v = OnLocks.fetch-IsValid c s worker queues v
step-IsValid s (locks_job swept now id worker secs) v =
    OnLocks.lock_job-IsValid swept now s id worker secs v
step-IsValid s (unlocks_job id worker) v = OnLocks.unlock_job-IsValid s id worker v
step-IsValid s (upserts r) v = OnRegistry.upsert-IsValid s r v
step-IsValid s (removes id) v = OnRegistry.remove-IsValid s id v
step-IsValid s (fetches_recurring now limit) v = OnRegistry.fetch_recurring-IsValid s now limit v
step-IsValid s (registers info) v = OnRegistry.register-IsValid s info v
step-IsValid s (heartbeats id now) v = OnRegistry.heartbeat-IsValid s id now v
step-IsValid s (deregisters id) v = OnRegistry.deregister-IsValid s id v
step-IsValid s (reclaims now_for id) v = OnLocks.reclaim-IsValid now_for s id v
step-IsValid s (acquires now resource owner ttl) v =
    OnRegistry.acquire-IsValid now s resource owner ttl v
step-IsValid s (releases resource owner) v = OnRegistry.release-IsValid s resource owner v
step-IsValid s (sweeps now) v = OnRegistry.sweep-IsValid s now v

pub run-IsValid : (s : MemoryStorage) (cs : List Call) → IsValid s → IsValid (run s cs)
unfolding run
run-IsValid s [] v = v
run-IsValid s (c ∷ cs) v = run-IsValid (step s c) cs (step-IsValid s c v)

-- So the invariant holds after any operations at all, in any order, on a new storage.
pub run-with_config-IsValid :
    (config : MemoryConfig) (cs : List Call) → IsValid (run (with_config config) cs)
unfolding with_config
run-with_config-IsValid config cs = run-IsValid _ cs (ground arith)
