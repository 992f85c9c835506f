-- ===== src/Processing/Cleanup.antt =====
-- src/processing/cleanup.rs on the memory storage, whose sweeps cannot fail.
use qml.Base.{
  ℕ, ◌≡◌, refl, ◌∙◌, ◌≤ℤ◌, ◌<ℤ◌, <ℤ→before, before, before→<ℤ, String, none, some, arith,
}
use qml.Base.Maps
use qml.Core.JobState.{DateTime}
use qml.Core.Job.{Job}
use qml.Storage.Memory.State.{MemoryStorage, NamedLock}
use qml.Storage.Memory.Jobs.{delete_expired_jobs}
use qml.Storage.Memory.Jobs.Expiry.{Due, delete_expired_lem}
use qml.Storage.Memory.Leases.{cleanup_expired_named_locks}
use qml.Storage.Memory.Invariant.{IsValid}

-- The result is the number of jobs removed.
unfoldable pub sweep_once : MemoryStorage → DateTime → MemoryStorage × ℕ
unfolding delete_expired_jobs cleanup_expired_named_locks
sweep_once s now =
    let (swept, removed) = delete_expired_jobs s now in
    ((cleanup_expired_named_locks swept now).0, removed)

-- A sweep removes every job and every named lock whose expiry is not after the instant of the sweep,
-- a job in whatever state it is, final or not, and leaves every other job and named lock as it is,
-- and all job locks, templates and servers.
pub sweep_once_lem :
    (s : MemoryStorage) (now : DateTime) (k j : String) (job : Job) (lock : NamedLock)
    → IsValid s
    → Maps.get k s.jobs ≡ some job
    → Maps.get j s.named_locks ≡ some lock
    → let swept = (sweep_once s now).0 in
      (Due now job.expires_at → Maps.get k swept.jobs ≡ none)
      × (¬ Due now job.expires_at → Maps.get k swept.jobs ≡ some job)
      × (lock.expires_at ≤ℤ now → Maps.get j swept.named_locks ≡ none)
      × (now <ℤ lock.expires_at → Maps.get j swept.named_locks ≡ some lock)
      × (swept.locks ≡ s.locks)
      × (swept.recurring ≡ s.recurring)
      × (swept.servers ≡ s.servers)
unfolding sweep_once delete_expired_jobs cleanup_expired_named_locks
sweep_once_lem s now k j job lock v stored held =
    let (gone, kept, _) = delete_expired_lem s now k job v stored in
    let named =
      Maps.get-retain (λ (l : NamedLock). before now l.expires_at) j s.named_locks v.named_once in
    (
      gone,
      kept,
      (λ h. named ∙ rw held (ended h)),
      (λ h. named ∙ rw (held, <ℤ→before now lock.expires_at h) refl),
      refl,
      refl,
      refl,
    )
  where
    ended :
        lock.expires_at ≤ℤ now
        → Maps.keep_if (λ (l : NamedLock). before now l.expires_at) (some lock) ≡ none
    ended h = ground (arith, before→<ℤ now lock.expires_at)
