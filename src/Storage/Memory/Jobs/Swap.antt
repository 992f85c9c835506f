-- ===== src/Storage/Memory/Jobs/Swap.antt =====
-- `update_if_state` and `update` of src/storage/memory.rs.
use qml.Base.{◌≡◌, ◌≢◌, String, true, false, none, some, arith, if◌then◌else◌, ◌==◌, eq_iff}
use qml.Base.Maps
use qml.Core.JobState.{JobStateKind, kind}
use qml.Core.Job.{Job}
use qml.Error.{StorageError, ok, err}
use qml.Storage.Memory.State.{MemoryStorage}
use qml.Storage.Memory.Jobs.{update_if_state}

-- A conditional write happens exactly when the stored job has the expected kind. Otherwise nothing
-- changes, and a missing job is an error.
pub update_if_state_lem :
    (s : MemoryStorage) (job stored : Job) (expected : JobStateKind) (k : String)
    → (Maps.get job.id s.jobs ≡ none
        → update_if_state s job expected ≡ (s, err (StorageError.job_not_found job.id)))
      × (Maps.get job.id s.jobs ≡ some stored
          → kind stored.state ≢ expected
          → update_if_state s job expected ≡ (s, ok false))
      × (Maps.get job.id s.jobs ≡ some stored
          → kind stored.state ≡ expected
          → ((update_if_state s job expected).1 ≡ ok true)
            × (Maps.get k (update_if_state s job expected).0.jobs
                ≡ (if job.id == k then some job else Maps.get k s.jobs)))
unfolding update_if_state
update_if_state_lem s job stored expected k = (
  (λ e. rw (e, update_if_state)),
  (λ e n. ground arith),
  (λ e p. (ground arith, ground (arith, Maps.get-insert job.id k job s.jobs))),
)

-- Of two conditional writes that expect the same kind and leave another, the second is refused, so
-- it cannot overwrite what happened after the first.
pub swap_once :
    (s : MemoryStorage) (first second : Job) (expected : JobStateKind)
    → first.id ≡ second.id
    → kind first.state ≢ expected
    → (update_if_state s first expected).1 ≡ ok true
    → update_if_state (update_if_state s first expected).0 second expected
      ≡ ((update_if_state s first expected).0, ok false)
unfolding update_if_state
swap_once s first second expected same moved won =
    ground (arith, Maps.get-insert first.id second.id first s.jobs, eq_iff first.id second.id)
