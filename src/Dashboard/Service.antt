-- ===== src/Dashboard/Service.antt =====
-- src/dashboard/service.rs on the memory storage, whose reads cannot fail.
pub mod Retrying
pub mod Statistics
use qml.Base.{ℕ, ◌+◌, String, Bool, true, false, Option, none, some, List, [], ◌∷◌, if◌then◌else◌}
use qml.Core.JobState.{JobState, JobStateKind, DateTime, new_enqueued}
use qml.Core.Job.{Job}
use qml.Error.{QmlError, StorageError, Result, ok, err, map_err, storage_error_to_string}
use qml.Storage.Memory.State.{MemoryStorage}
use qml.Storage.Memory.Jobs
use qml.Base.Maps

pub record JobStatistics : Type 0 where
  pub total_jobs : ℕ
  pub succeeded : ℕ
  pub failed : ℕ
  pub processing : ℕ
  pub enqueued : ℕ
  pub scheduled : ℕ
  pub awaiting_retry : ℕ
  pub deleted : ℕ

abbrev pub no_statistics : JobStatistics
no_statistics = record {
  total_jobs = 0;
  succeeded = 0;
  failed = 0;
  processing = 0;
  enqueued = 0;
  scheduled = 0;
  awaiting_retry = 0;
  deleted = 0;
}

abbrev pub add_count : JobStateKind → ℕ → JobStatistics → JobStatistics
add_count JobStateKind.enqueued n st = record st { enqueued = st.enqueued + n }
add_count JobStateKind.processing n st = record st { processing = st.processing + n }
add_count JobStateKind.succeeded n st = record st { succeeded = st.succeeded + n }
add_count JobStateKind.failed n st = record st { failed = st.failed + n }
add_count JobStateKind.scheduled n st = record st { scheduled = st.scheduled + n }
add_count JobStateKind.awaiting_retry n st = record st { awaiting_retry = st.awaiting_retry + n }
add_count JobStateKind.deleted n st = record st { deleted = st.deleted + n }

-- The `for` loop over the counts.
unfoldable pub add_counts : List (JobStateKind × ℕ) → JobStatistics → JobStatistics
add_counts [] st = st
add_counts ((kind, count) ∷ rest) st =
    add_counts rest (add_count kind count (record st { total_jobs = st.total_jobs + count }))

-- The memory storage always has counts, so the sample of the other branch is never taken.
unfoldable pub get_job_statistics : MemoryStorage → JobStatistics
unfolding add_counts Jobs.get_job_counts
get_job_statistics s = add_counts (Jobs.get_job_counts s) no_statistics

abbrev pub is_failed : JobState → Bool
is_failed (JobState.failed _ _ _) = true
is_failed _ = false

abbrev pub service_error : StorageError → QmlError
service_error e = QmlError.storage_error (storage_error_to_string e)

-- The first half of `retry_job`: what is read, and what is to be written if anything.
unfoldable pub read_failed : MemoryStorage → DateTime → String → Option Job
unfolding new_enqueued
read_failed s now job_id = elim (Maps.get job_id s.jobs) [
  | none ↦ none
  | some job ↦
      if is_failed job.state then some (record job { state = new_enqueued now job.queue }) else none
]

-- The second half, on the storage as it is by then.
unfoldable pub write_retry : MemoryStorage → Option Job → MemoryStorage × Result QmlError Bool
unfolding Jobs.update_if_state
write_retry s none = (s, ok false)
write_retry s (some job) =
    let (written, r) = Jobs.update_if_state s job JobStateKind.failed in
    (written, map_err service_error r)

unfoldable pub retry_job : MemoryStorage → DateTime → String → MemoryStorage × Result QmlError Bool
unfolding read_failed write_retry
retry_job s now job_id = write_retry s (read_failed s now job_id)

unfoldable pub delete_job : MemoryStorage → String → MemoryStorage × Result QmlError Bool
unfolding Jobs.delete
delete_job s job_id = let (left, r) = Jobs.delete s job_id in (left, map_err service_error r)

-- `extract_state_info`: the message, the time and the duration that a state carries.
unfoldable pub extract_state_info : JobState → Option String × Option DateTime × Option ℕ
extract_state_info (JobState.failed _ exception _) = (some exception, none, none)
extract_state_info (JobState.succeeded _ total_duration _) = (none, none, some total_duration)
extract_state_info (JobState.scheduled _ enqueue_at _) = (none, some enqueue_at, none)
extract_state_info (JobState.awaiting_retry _ retry_at last_exception) =
    (some last_exception, some retry_at, none)
extract_state_info _ = (none, none, none)
