-- ===== src/Storage/Postgres/Jobs.antt =====
-- `MonitoringApi` and `JobStore` of src/storage/postgres.rs. `Uuid::from_str` with the printing of
-- the identifier that it gives is the parameter `from_str`; the database compares printed ones.
pub mod Agreement
pub mod Calls
pub mod Interchange
pub mod Runs
use qml.Base.{
  ℕ, ◌+◌, ◌%◌, ◌^◌, String, Bool, true, false, Option, none, some, List, [], ◌∷◌, ◌&&◌, ◌||◌,
  at_most, before, ltb, length, filter, take, drop, map, if◌then◌else◌, ◌==◌, ◌<>◌, show,
}
use qml.Base.Maps
use qml.Base.Maps.{Map}
use qml.Base.Sort.{sort_by}
use qml.Core.JobState.{JobState, JobStateKind, DateTime, new_enqueued}
use qml.Core.Job.{Job}
use qml.Error.{StorageError, Result, ok, err}
use qml.Storage.Memory.State.{goes_first}
use qml.Storage.Memory.Jobs.{newest_first}
use qml.Storage.Postgres.Driver.{
  SqlxError, Session, execute, op_failed, and_then, handle_schema_error,
}
use qml.Storage.Postgres.Row.{JobRow, job_state_kind_to_name, set_values, inserted_row, row_to_job}

abbrev pub JobSession : Type 0
JobSession = Session (Map JobRow)

abbrev pub JobQuery : Type 0 → Type 0
JobQuery A = Map JobRow → Result SqlxError (Map JobRow × A)

-- A query that reads.
abbrev pub select {ℓ} :
    {A : Type ℓ} → (Map JobRow → A) → Map JobRow → Result SqlxError (Map JobRow × A)
select f rows = ok (rows, f rows)

abbrev pub by_id : String → Map JobRow → Option JobRow
by_id job_id rows = Maps.get job_id rows

abbrev pub option_job : Option JobRow → Option Job
option_job none = none
option_job (some row) = some (row_to_job row)

-- `UPDATE … WHERE id = $1 AND …`, with the number of rows that it changes.
unfoldable pub update_where :
    String → (JobRow → Bool) → (JobRow → JobRow) → Map JobRow → Map JobRow × ℕ
update_where job_id test set rows = elim (Maps.get job_id rows) [
  | none ↦ (rows, 0)
  | some row ↦ if test row then (Maps.insert job_id (set row) rows, 1) else (rows, 0)
]

abbrev unique_violation : SqlxError
unique_violation = SqlxError.database (some "23505") "duplicate key value"

unfoldable pub insert_row : JobRow → JobQuery (Unit {0})
insert_row row rows =
    if Maps.contains_key row.id rows
    then err unique_violation
    else ok (Maps.insert row.id row rows, tt)

abbrev invalid_id : {A : Type 0} → JobSession → String → JobSession × Result StorageError A
invalid_id s e = (s, err (StorageError.invalid_job_data ("Invalid job ID format: " <> e)))

module _ (from_str : String → Result String String) where
  unfoldable pub get : Bool → JobSession → String → JobSession × Result StorageError (Option Job)
  unfolding handle_schema_error execute row_to_job
  get auto_migrate s job_id = elim (from_str job_id) [
    | err e ↦ invalid_id s e
    | ok job_uuid ↦
        and_then (handle_schema_error auto_migrate (execute (select (by_id job_uuid))) "get" s)
          (λ s' row. (s', ok (option_job row)))
  ]

  unfoldable pub update : JobSession → Job → JobSession × Result StorageError (Unit {0})
  unfolding execute update_where set_values
  update s job = elim (from_str job.id) [
    | err e ↦ invalid_id s e
    | ok job_id ↦
        and_then
          (op_failed "Failed to update job"
            (execute (λ rows. ok (update_where job_id (λ row. true) (set_values job) rows)) s))
          (λ s' rows_affected.
            if ltb 0 rows_affected
            then (s', ok tt)
            else (s', err (StorageError.job_not_found job.id)))
  ]

  -- The rows are changed and looked up by two queries, between which others may come.
  unfoldable pub swap :
      JobSession → String → Job → JobStateKind → JobSession × Result StorageError ℕ
  unfolding execute update_where set_values job_state_kind_to_name
  swap s job_id job expected = op_failed "Failed to update_if_state job" (
      execute
        (λ rows. ok (
          update_where job_id (λ row. row.state_name == job_state_kind_to_name expected)
            (set_values job) rows))
        s)

  unfoldable pub explain : JobSession → String → Job → JobSession × Result StorageError Bool
  unfolding execute
  explain s job_id job =
      and_then (op_failed "Failed to verify job existence" (execute (select (by_id job_id)) s))
        (λ s' row. elim row [
          | some _ ↦ (s', ok false)
          | none ↦ (s', err (StorageError.job_not_found job.id))
        ])

  unfoldable pub conclude : String → Job → JobSession → ℕ → JobSession × Result StorageError Bool
  unfolding explain
  conclude job_id job s rows_affected =
      if ltb 0 rows_affected then (s, ok true) else explain s job_id job

  unfoldable pub update_if_state :
      JobSession → Job → JobStateKind → JobSession × Result StorageError Bool
  unfolding swap conclude
  update_if_state s job expected = elim (from_str job.id) [
    | err e ↦ invalid_id s e
    | ok job_id ↦ and_then (swap s job_id job expected) (conclude job_id job)
  ]

  unfoldable pub delete : JobSession → String → JobSession × Result StorageError Bool
  unfolding execute
  delete s job_id = elim (from_str job_id) [
    | err e ↦ invalid_id s e
    | ok job_uuid ↦
        op_failed "Failed to delete job" (
          execute (λ rows. ok (Maps.remove job_uuid rows, Maps.is_some (Maps.get job_uuid rows))) s)
  ]

  unfoldable pub enqueue : Bool → JobSession → Job → JobSession × Result StorageError (Unit {0})
  unfolding handle_schema_error execute insert_row inserted_row
  enqueue auto_migrate s job = elim (from_str job.id) [
    | err e ↦ invalid_id s e
    | ok job_id ↦
        handle_schema_error auto_migrate (execute (insert_row (inserted_row job_id job))) "enqueue"
          s
  ]
