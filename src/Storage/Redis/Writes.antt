-- ===== src/Storage/Redis/Writes.antt =====
-- `get`, `enqueue`, `update`, `update_if_state` and `delete` of src/storage/redis.rs. `now` is the
-- reading of the clock in `is_job_available`.
use qml.Base.{String, Bool, true, false, Option, none, some, if◌then◌else◌, ◌==◌}
use qml.Base.Maps
use qml.Core.JobState.{JobStateKind, DateTime, kind}
use qml.Core.Job.{Job}
use qml.Error.{StorageError, Result, ok, err}
use qml.Storage.Memory.State.{same_kind}
use qml.Storage.Redis.Indices.{
  RedisState, sadd, state_to_string, leave_state, enter_state, set_available, update_job_indices,
  remove_job_indices,
}

unfoldable pub get : RedisState → String → Result StorageError (Option Job)
get s job_id = ok (Maps.get job_id s.blobs)

unfoldable pub enqueue : DateTime → RedisState → Job → RedisState × Result StorageError (Unit {0})
unfolding update_job_indices
enqueue now s job =
    (update_job_indices now job none (record s { blobs = Maps.insert job.id job s.blobs }), ok tt)

-- A job that stays in its state stays in the set and the count of it.
unfoldable pub move_state : String → String → String → RedisState → RedisState
unfolding leave_state enter_state
move_state old new id s = if old == new then s else enter_state new id (leave_state old id s)

-- The script of `update`: the queue is that of the stored job.
unfoldable pub update_script : DateTime → Job → Job → RedisState → RedisState
unfolding move_state set_available state_to_string sadd
update_script now stored job s =
    let written = record s {
      blobs = Maps.insert job.id job s.blobs;
      all_jobs = sadd stored.id s.all_jobs;
    } in
    set_available now stored.queue stored.id job
      (move_state (state_to_string stored.state) (state_to_string job.state) stored.id written)

unfoldable pub update : DateTime → RedisState → Job → RedisState × Result StorageError (Unit {0})
unfolding update_script
update now s job = elim (Maps.get job.id s.blobs) [
  | none ↦ (s, err (StorageError.job_not_found job.id))
  | some stored ↦ (update_script now stored job s, ok tt)
]

unfoldable pub swap_script : DateTime → Job → Job → RedisState → RedisState
unfolding move_state set_available state_to_string
swap_script now stored job s = set_available now stored.queue stored.id job (
    move_state (state_to_string stored.state) (state_to_string job.state) stored.id
      (record s { blobs = Maps.insert job.id job s.blobs }))

unfoldable pub update_if_state :
    DateTime → RedisState → Job → JobStateKind → RedisState × Result StorageError Bool
unfolding swap_script
update_if_state now s job expected = elim (Maps.get job.id s.blobs) [
  | none ↦ (s, err (StorageError.job_not_found job.id))
  | some stored ↦
      if same_kind (kind stored.state) expected
      then (swap_script now stored job s, ok true)
      else (s, ok false)
]

-- The reading, the deletion and the indices are commands of their own; nobody comes between them here.
unfoldable pub delete : RedisState → String → RedisState × Result StorageError Bool
unfolding remove_job_indices
delete s job_id = elim (Maps.get job_id s.blobs) [
  | none ↦ (s, ok false)
  | some job ↦
      (remove_job_indices job_id job (record s { blobs = Maps.remove job_id s.blobs }), ok true)
]
