-- ===== src/Storage/Postgres/Registry.antt =====
-- `ServerRegistry` and `RecurringStore` of src/storage/postgres.rs, each on the rows of its table.
use qml.Base.{
  ℕ, ℤ, String, Bool, true, false, Option, none, some, List, [], ◌∷◌, ◌&&◌, before, filter, map,
  if◌then◌else◌, ◌==◌,
}
use qml.Base.Maps
use qml.Base.Maps.{Map}
use qml.Base.Sort.{sort_by}
use qml.Core.JobState.{DateTime}
use qml.Core.ServerInfo.{ServerInfo}
use qml.Core.Recurring.{RecurringJob}
use qml.Error.{StorageError, Result, ok, err}
use qml.Storage.Memory.Recurring.{id_order, due_order, is_due, parked_until}
use qml.Storage.Postgres.Driver.{SqlxError, Session, execute, op_failed, and_then}
use qml.Storage.Postgres.Row.{as_i32, at_least_zero}
use qml.Storage.Postgres.Listing.{limited}

pub record ServerRow : Type 0 where
  pub server_id : String
  pub server_name : String
  pub started_at : DateTime
  pub last_heartbeat : DateTime
  pub worker_count : ℤ
  pub queues : List String

unfoldable pub row_to_server_info : ServerRow → ServerInfo
row_to_server_info row = record {
  server_id = row.server_id;
  server_name = row.server_name;
  started_at = row.started_at;
  last_heartbeat = row.last_heartbeat;
  worker_count = at_least_zero row.worker_count;
  queues = row.queues;
}

unfoldable pub server_row : ServerInfo → ServerRow
unfolding as_i32
server_row info = record {
  server_id = info.server_id;
  server_name = info.server_name;
  started_at = info.started_at;
  last_heartbeat = info.last_heartbeat;
  worker_count = as_i32 info.worker_count;
  queues = info.queues;
}

abbrev pub ServerSession : Type 0
ServerSession = Session (Map ServerRow)

-- An INSERT with ON CONFLICT that sets every other column writes the row.
unfoldable pub register_server :
    ServerSession → ServerInfo → ServerSession × Result StorageError (Unit {0})
unfolding execute server_row
register_server s info =
    op_failed "Failed to register server"
      (execute (λ rows. ok (Maps.insert info.server_id (server_row info) rows, tt)) s)

-- `UPDATE … WHERE server_id = $1`, with whether it changed a row.
abbrev beat : String → DateTime → Map ServerRow → Map ServerRow × Bool
beat server_id now rows = elim (Maps.get server_id rows) [
  | none ↦ (rows, false)
  | some row ↦ (Maps.insert server_id (record row { last_heartbeat = now }) rows, true)
]

unfoldable pub heartbeat_server :
    ServerSession → String → DateTime → ServerSession × Result StorageError Bool
unfolding execute
heartbeat_server s server_id now =
    op_failed "Failed to heartbeat server" (execute (λ rows. ok (beat server_id now rows)) s)

unfoldable pub deregister_server : ServerSession → String → ServerSession × Result StorageError Bool
unfolding execute
deregister_server s server_id =
    op_failed "Failed to deregister server"
      (execute (λ rows. ok (Maps.remove server_id rows, Maps.is_some (Maps.get server_id rows))) s)

unfoldable pub list_dead_servers :
    ServerSession → DateTime → ServerSession × Result StorageError (List ServerInfo)
unfolding execute row_to_server_info
list_dead_servers s stale_before = op_failed "Failed to list dead servers" (
    execute
      (λ rows. ok (
        rows,
        map row_to_server_info (
            filter (λ (row : ServerRow). before row.last_heartbeat stale_before)
              (Maps.values rows)),
      ))
      s)

-- The columns of a template are its fields.
abbrev pub RecurringSession : Type 0
RecurringSession = Session (Map RecurringJob)

-- A row that is there keeps its `created_at`.
abbrev merged : RecurringJob → Option RecurringJob → RecurringJob
merged job none = job
merged job (some row) = record job { created_at = row.created_at }

unfoldable pub upsert_recurring_job :
    RecurringSession → RecurringJob → RecurringSession × Result StorageError (Unit {0})
unfolding execute
upsert_recurring_job s job =
    op_failed "Failed to upsert recurring job"
      (execute (λ rows. ok (Maps.insert job.id (merged job (Maps.get job.id rows)) rows, tt)) s)

unfoldable pub remove_recurring_job :
    RecurringSession → String → RecurringSession × Result StorageError Bool
unfolding execute
remove_recurring_job s id =
    op_failed "Failed to delete recurring job"
      (execute (λ rows. ok (Maps.remove id rows, Maps.is_some (Maps.get id rows))) s)

unfoldable pub list_recurring_jobs :
    RecurringSession → RecurringSession × Result StorageError (List RecurringJob)
unfolding execute
list_recurring_jobs s =
    op_failed "Failed to list recurring jobs"
      (execute (λ rows. ok (rows, sort_by id_order (Maps.values rows))) s)

-- The rows of these identifiers are parked and returned, in the order of the table.
unfoldable pub park_rows :
    DateTime → List String → Map RecurringJob → Map RecurringJob × List RecurringJob
unfolding parked_until
park_rows now ids [] = ([], [])
park_rows now ids ((k, row) ∷ rows) =
    let (rows', parked) = park_rows now ids rows in
    let row' : RecurringJob = record row { next_run_at = parked_until now } in
    if contains ids row.id then ((k, row') ∷ rows', row' ∷ parked) else ((k, row) ∷ rows', parked)
  where
    contains : List String → String → Bool
    contains [] id = false
    contains (x ∷ xs) id = if x == id then true else contains xs id

abbrev parked_query :
    DateTime
    → Map RecurringJob
    → Result SqlxError (List RecurringJob)
    → Result SqlxError (Map RecurringJob × List RecurringJob)
parked_query now rows (ok due) = ok (park_rows now (map (λ (r : RecurringJob). r.id) due) rows)
parked_query now rows (err e) = err e

-- `held` tells the rows that another transaction has locked. The returned templates carry `now` as
-- their next run.
unfoldable pub fetch_due_recurring_jobs :
    (String → Bool)
    → RecurringSession
    → DateTime
    → ℕ
    → RecurringSession × Result StorageError (List RecurringJob)
unfolding execute park_rows limited is_due
fetch_due_recurring_jobs held s now limit =
    and_then
      (op_failed "Failed to fetch due recurring jobs" (
        execute
          (λ rows. parked_query now rows (
            limited (some limit) (
              sort_by due_order (
                filter (λ r. is_due now r && (if held r.id then false else true))
                  (Maps.values rows)))))
          s))
      (λ s' rows. (s', ok (map (λ (r : RecurringJob). record r { next_run_at = now }) rows)))
