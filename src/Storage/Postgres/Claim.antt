-- ===== src/Storage/Postgres/Claim.antt =====
-- The claims of due jobs of src/storage/postgres.rs, and its job locks with their functions in
-- install.sql. `held` tells the rows that another transaction has locked, which a claim passes over.
use qml.Base.{
  ℕ, ℤ, pos, ◌+ℤ◌, ◌*ℤ◌, String, Bool, true, false, not, none, some, List, [], ◌∷◌, ◌&&◌, before,
  ltb, map, if◌then◌else◌, ◌==◌, ◌<>◌,
}
use qml.Base.Maps.{Map}
use qml.Core.JobState.{DateTime}
use qml.Core.Job.{Job}
use qml.Error.{StorageError, Result, ok, err}
use qml.Storage.Memory.Jobs.{scheduled_due, retry_due}
use qml.Storage.Postgres.Driver.{SqlxError, execute, op_failed, and_then}
use qml.Storage.Postgres.Row.{JobRow, as_i32}
use qml.Storage.Postgres.Jobs.{JobSession, JobQuery, update_where}
use qml.Storage.Postgres.Listing.{is_due_row, due_rows, to_jobs}
use qml.Storage.Postgres.Locker.{contains, back_in_queue}

-- The rows of these identifiers are changed and returned, in the order of the table.
unfoldable pub update_all : (JobRow → JobRow) → List String → Map JobRow → Map JobRow × List JobRow
update_all set ids [] = ([], [])
update_all set ids ((k, row) ∷ rows) =
    let (rows', changed) = update_all set ids rows in
    if contains ids row.id
    then ((k, set row) ∷ rows', set row ∷ changed)
    else ((k, row) ∷ rows', changed)

unfoldable pub claimed :
    (JobRow → JobRow)
    → Map JobRow
    → Result SqlxError (List JobRow)
    → Result SqlxError (Map JobRow × List JobRow)
unfolding update_all
claimed set rows (ok due) = ok (update_all set (map (λ (row : JobRow). row.id) due) rows)
claimed set rows (err e) = err e

unfoldable pub claim_query :
    DateTime → (JobRow → Bool) → (String → Bool) → ℕ → JobQuery (List JobRow)
unfolding claimed due_rows back_in_queue
claim_query db_now due held limit rows =
    claimed (back_in_queue db_now) rows (due_rows (λ row. due row && not (held row.id)) limit rows)

-- `db_now` is `NOW()` of the database, `now` the argument of the call.
unfoldable pub claim_due_scheduled_jobs :
    DateTime
    → (String → Bool)
    → JobSession
    → DateTime
    → ℕ
    → JobSession × Result StorageError (List Job)
unfolding execute claim_query is_due_row scheduled_due
claim_due_scheduled_jobs db_now held s now limit =
    and_then
      (op_failed "Failed to claim due scheduled jobs"
        (execute (claim_query db_now (is_due_row "scheduled" (scheduled_due now)) held limit) s))
      to_jobs

unfoldable pub claim_due_retry_jobs :
    DateTime
    → (String → Bool)
    → JobSession
    → DateTime
    → ℕ
    → JobSession × Result StorageError (List Job)
unfolding execute claim_query is_due_row retry_due
claim_due_retry_jobs db_now held s now limit =
    and_then
      (op_failed "Failed to claim due retry jobs"
        (execute (claim_query db_now (is_due_row "awaiting_retry" (retry_due now)) held limit) s))
      to_jobs

-- `locked_by IS NULL OR lock_expires_at < NOW()`; a NULL expiry is not before anything.
unfoldable pub lock_is_free : DateTime → JobRow → Bool
lock_is_free db_now row = elim row.locked_by [
  | none ↦ true
  | some _ ↦ elim row.lock_expires_at [ none ↦ false | some expires_at ↦ before expires_at db_now ]
]

unfoldable pub acquire_job_lock : DateTime → String → String → ℤ → Map JobRow → Map JobRow × ℕ
unfolding update_where lock_is_free
acquire_job_lock db_now job_id worker_id lock_duration rows =
    update_where job_id (lock_is_free db_now)
      (λ row. record row {
        locked_by = some worker_id;
        lock_expires_at = some (db_now +ℤ lock_duration);
      })
      rows

unfoldable pub locked_by_worker : String → JobRow → Bool
locked_by_worker worker_id row = elim row.locked_by [ none ↦ false | some w ↦ w == worker_id ]

unfoldable pub release_query : String → String → Map JobRow → Map JobRow × ℕ
unfolding update_where locked_by_worker
release_query job_id worker_id rows =
    update_where job_id (locked_by_worker worker_id)
      (λ row. record row { locked_by = none; lock_expires_at = none }) rows

abbrev affected : Map JobRow × ℕ → Result SqlxError (Map JobRow × Bool)
affected (rows, n) = ok (rows, ltb 0 n)

module _ (from_str : String → Result String String) where
  -- `INTERVAL '1 second' * $3` of the timeout as an i32, in milliseconds.
  unfoldable pub try_acquire_job_lock :
      DateTime → JobSession → String → String → ℕ → JobSession × Result StorageError Bool
  unfolding execute acquire_job_lock as_i32
  try_acquire_job_lock db_now s job_id worker_id timeout_seconds = elim (from_str job_id) [
    | err e ↦ (s, err (StorageError.invalid_job_data ("Invalid job ID format: " <> e)))
    | ok job_uuid ↦ op_failed "Failed to acquire job lock" (
        execute
          (λ rows.
            affected (
              acquire_job_lock db_now job_uuid worker_id (as_i32 timeout_seconds *ℤ pos 1000) rows))
          s)
  ]

  unfoldable pub release_job_lock :
      JobSession → String → String → JobSession × Result StorageError Bool
  unfolding execute release_query
  release_job_lock s job_id worker_id = elim (from_str job_id) [
    | err e ↦ (s, err (StorageError.invalid_job_data ("Invalid job ID format: " <> e)))
    | ok job_uuid ↦
        op_failed "Failed to release job lock"
          (execute (λ rows. affected (release_query job_uuid worker_id rows)) s)
  ]
