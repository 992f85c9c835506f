-- ===== src/Storage/Memory/Leases/Unrelated.antt =====
-- The operations of src/storage/memory.rs that are not about named locks.
use qml.Base.{◌≡◌, refl, arith}
use qml.Storage.Memory.State.{MemoryStorage, clear}
use qml.Storage.Memory.Jobs
use qml.Storage.Memory.Claim.{claim_due, claim_due_scheduled_jobs, claim_due_retry_jobs}
use qml.Storage.Memory.Locker
use qml.Storage.Memory.Recurring
use qml.Storage.Memory.Servers
use qml.Storage.Memory.Steps.{
  Call, updates, swaps, enqueues, locks_job, unlocks_job, heartbeats, acquires, releases, sweeps,
  step,
}

-- The operations that are not about named locks.
abbrev pub LeavesNamed : Call → Type 0
LeavesNamed (acquires _ _ _ _) = ⊥
LeavesNamed (releases _ _) = ⊥
LeavesNamed (sweeps _) = ⊥
LeavesNamed _ = Unit

pub step-named :
    (s : MemoryStorage) (c : Call) → LeavesNamed c → (step s c).named_locks ≡ s.named_locks
unfolding step Jobs.update Jobs.update_if_state Jobs.delete Jobs.enqueue Jobs.enqueue_insert clear
    claim_due_scheduled_jobs claim_due_retry_jobs claim_due Jobs.delete_expired_jobs
    Recurring.upsert_recurring_job Recurring.remove_recurring_job Recurring.fetch_due_recurring_jobs
    Servers.register_server Servers.heartbeat_server Servers.deregister_server
    Servers.reclaim_jobs_from_server Locker.fetch_and_lock_job Locker.try_acquire_job_lock
    Locker.release_job_lock Locker.requeue_stranded_jobs
step-named s (updates job) h = ground arith
step-named s (swaps job k) h = ground arith
step-named s (enqueues job) h = ground arith
step-named s (heartbeats id now) h = ground arith
step-named s (acquires _ _ _ _) h = absurd h
step-named s (releases _ _) h = absurd h
step-named s (sweeps _) h = absurd h
step-named s (locks_job c now id w ttl) h = ground arith
step-named s (unlocks_job id w) h = ground arith
step-named s c h = refl
