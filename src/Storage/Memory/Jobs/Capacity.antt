-- ===== src/Storage/Memory/Jobs/Capacity.antt =====
-- The limit on the number of jobs in `enqueue` of src/storage/memory.rs.
use qml.Base.{ℕ, suc, ◌≡◌, ◌≢◌, ◌≤◌, ◌<◌, false, none, some, arith, eq_iff}
use qml.Base.Maps
use qml.Core.Job.{Job}
use qml.Error.{ok}
use qml.Storage.Memory.State.{MemoryStorage, len, is_at_capacity}
use qml.Storage.Memory.Jobs.{enqueue, enqueue_insert}

len-insert-le : (s : MemoryStorage) (job : Job) → len (enqueue_insert s job) ≤ suc (len s)
unfolding len enqueue_insert
len-insert-le s job = ground (arith, Maps.length-insert job.id job s.jobs)

-- One `enqueue` at a time never takes a storage over its limit, and it is refused, with nothing
-- changed, exactly when the storage is full.
pub enqueue_capacity :
    (s : MemoryStorage) (job : Job) (max_jobs : ℕ)
    → s.config.max_jobs ≡ some max_jobs
    → (len s ≤ max_jobs → len (enqueue s job).0 ≤ max_jobs)
      × (len s < max_jobs → (enqueue s job).1 ≡ ok tt)
      × (max_jobs ≤ len s → ((enqueue s job).0 ≡ s) × ((enqueue s job).1 ≢ ok tt))
unfolding enqueue is_at_capacity
enqueue_capacity s job max_jobs e = (
  (λ h. ground (arith, len-insert-le s job, e)),
  (λ h. ground (arith, e)),
  (λ h. (ground (arith, e), ground (arith, e))),
)

-- But the check and the insertion are two critical sections: when one place is left, two callers
-- with new jobs can both pass the check, and then their insertions exceed the limit.
pub enqueue_race :
    (s : MemoryStorage) (a b : Job) (max_jobs : ℕ)
    → s.config.max_jobs ≡ some max_jobs
    → suc (len s) ≡ max_jobs
    → Maps.get a.id s.jobs ≡ none
    → Maps.get b.id s.jobs ≡ none
    → a.id ≢ b.id
    → (is_at_capacity s ≡ false) × (len (enqueue_insert (enqueue_insert s a) b) ≡ suc max_jobs)
unfolding is_at_capacity len enqueue_insert Maps.contains_key
enqueue_race s a b max_jobs e one fresh_a fresh_b differ = (
  ground (arith, e),
  ground (
    arith,
    Maps.length-insert a.id a s.jobs,
    Maps.length-insert b.id b (Maps.insert a.id a s.jobs),
    Maps.get-insert a.id b.id a s.jobs,
    eq_iff a.id b.id,
  ),
)
