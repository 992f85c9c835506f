-- ===== src/Storage/Postgres/Locker.antt =====
-- `JobLocker` of src/storage/postgres.rs with the lock functions of install.sql, and the claims of due
-- jobs, which other transactions can keep from a row. `held` tells the rows that another transaction
-- has locked while the query runs; the clock of the database, `NOW()`, is an argument.
pub mod Taking
use qml.Base.{
  ℕ, zero, suc, ◌+◌, min, ℤ, pos, ◌+ℤ◌, ◌*ℤ◌, String, Bool, true, false, not, Option, none, some,
  List, [], ◌∷◌, ◌&&◌, ◌||◌, before, ltb, length, filter, take, map, if◌then◌else◌, ◌==◌, ◌<>◌,
}
use qml.Base.Maps
use qml.Base.Maps.{Map}
use qml.Base.Sort.{sort_by}
use qml.Core.JobState.{JobState, JobStateKind, DateTime}
use qml.Core.Job.{Job}
use qml.Error.{StorageError, Result, ok, err}
use qml.Storage.Memory.Jobs.{scheduled_due, retry_due}
use qml.Storage.Postgres.Driver.{SqlxError, Session, execute, op_failed, and_then}
use qml.Storage.Postgres.Row.{JobRow, as_i32, job_state_kind_to_name, job_state_to_name, row_to_job}
use qml.Storage.Postgres.Jobs.{JobSession, JobQuery, update_where, option_job}
use qml.Storage.Postgres.Listing.{ranks_first, is_due_row, due_rows, to_jobs}

abbrev pub contains : List String → String → Bool
contains [] q = false
contains (x ∷ xs) q = if x == q then true else contains xs q

-- `AND queue_name = ANY(…)`, left out without queues and with an empty list of them.
unfoldable pub queue_filter : Option (List String) → JobRow → Bool
queue_filter none row = true
queue_filter (some []) row = true
queue_filter (some (x ∷ xs)) row = contains (x ∷ xs) row.queue_name

-- The inner query: `state_name IN ('enqueued', 'awaiting_retry')`, whatever the instant of a retry.
unfoldable pub is_candidate : (String → Bool) → Option (List String) → JobRow → Bool
unfolding queue_filter
is_candidate held queues row =
    ((row.state_name == "enqueued") || (row.state_name == "awaiting_retry"))
    && queue_filter queues row
    && not (held row.id)

unfoldable pub mark : JobState → JobRow → JobRow
unfolding job_state_to_name
mark state row = record row { state_name = job_state_to_name state; state_data = state }

-- The outer update: the first candidate is marked and returned.
abbrev pub take_first : JobState → Map JobRow → List JobRow → Map JobRow × Option JobRow
take_first state rows [] = (rows, none)
take_first state rows (row ∷ rest) =
    (Maps.insert row.id (mark state row) rows, some (mark state row))

unfoldable pub fetch_query :
    JobState → (String → Bool) → Option (List String) → JobQuery (Option JobRow)
unfolding ranks_first is_candidate mark
fetch_query state held queues rows = ok (
    take_first state rows
      (sort_by ranks_first (filter (is_candidate held queues) (Maps.values rows))))

unfoldable pub fetch_and_lock_job :
    DateTime
    → (String → Bool)
    → JobSession
    → String
    → Option (List String)
    → JobSession × Result StorageError (Option Job)
unfolding execute fetch_query row_to_job
fetch_and_lock_job now held s worker_id queues =
    and_then
      (op_failed "Failed to fetch and lock job" (
        execute (fetch_query (JobState.processing now worker_id "postgres-storage") held queues) s))
      (λ s' row. (s', ok (option_job row)))

abbrev pub unwrap_or : Option ℕ → ℕ → ℕ
unwrap_or none d = d
unwrap_or (some n) d = n

-- The rounds left, with the readings of each; an error drops the jobs that were fetched before it.
unfoldable pub fetch_rounds :
    ℕ
    → (ℕ → DateTime)
    → (ℕ → String → Bool)
    → JobSession
    → String
    → Option (List String)
    → JobSession × Result StorageError (List Job)
unfolding fetch_and_lock_job
fetch_rounds zero clock held s worker_id queues = (s, ok [])
fetch_rounds (suc n) clock held s worker_id queues =
    and_then (fetch_and_lock_job (clock n) (held n) s worker_id queues) (λ s' found. elim found [
      | none ↦ (s', ok [])
      | some job ↦
          and_then (fetch_rounds n clock held s' worker_id queues)
            (λ s'' jobs. (s'', ok (job ∷ jobs)))
    ])

unfoldable pub fetch_available_jobs_atomic :
    (ℕ → DateTime)
    → (ℕ → String → Bool)
    → JobSession
    → String
    → Option ℕ
    → Option (List String)
    → JobSession × Result StorageError (List Job)
unfolding fetch_rounds
fetch_available_jobs_atomic clock held s worker_id limit queues =
    fetch_rounds (min (unwrap_or limit 10) 100) clock held s worker_id queues

unfoldable pub back_in_queue : DateTime → JobRow → JobRow
back_in_queue now row = record row {
  state_name = "enqueued";
  state_data = JobState.enqueued now row.queue_name;
}

unfoldable pub requeued : DateTime → JobRow → JobRow
unfolding back_in_queue
requeued now row = record (back_in_queue now row) { locked_by = none; lock_expires_at = none }

unfoldable pub update_processing_to_enqueued :
    DateTime → (JobRow → Bool) → String → JobSession → JobSession × Result StorageError ℕ
unfolding execute requeued
update_processing_to_enqueued now where_filter op_message s =
    let test : JobRow → Bool = λ row. (row.state_name == "processing") && where_filter row in
    op_failed op_message (
      execute
        (λ rows. ok (
          Maps.map_values (λ row. if test row then requeued now row else row) rows,
          length (filter test (Maps.values rows)),
        ))
        s)

-- `state_data->'Processing'->>'started_at' < $1` and `…->>'server_name' = $1`; NULL elsewhere.
unfoldable pub started_before : DateTime → JobState → Bool
started_before stale_before (JobState.processing started_at _ _) = before started_at stale_before
started_before stale_before _ = false

unfoldable pub runs_on : String → JobState → Bool
runs_on server_id (JobState.processing _ _ server_name) = server_name == server_id
runs_on server_id _ = false

unfoldable pub requeue_stranded_jobs :
    DateTime → JobSession → DateTime → JobSession × Result StorageError ℕ
unfolding update_processing_to_enqueued started_before
requeue_stranded_jobs now s stale_before =
    update_processing_to_enqueued now (λ row. started_before stale_before row.state_data)
      "Failed to requeue stranded jobs" s

unfoldable pub reclaim_jobs_from_server :
    DateTime → JobSession → String → JobSession × Result StorageError ℕ
unfolding update_processing_to_enqueued runs_on
reclaim_jobs_from_server now s server_id =
    update_processing_to_enqueued now (λ row. runs_on server_id row.state_data)
      "Failed to reclaim jobs from server" s
