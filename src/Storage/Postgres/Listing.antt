-- ===== src/Storage/Postgres/Listing.antt =====
-- The reading operations of src/storage/postgres.rs and the claims of due jobs. The clock of the
-- database, `NOW()`, is an argument. Rows that sort alike come in the order of the table, which
-- theorems do not fix.
use qml.Base.{
  ℕ, ◌+◌, ◌-◌, String, Bool, true, false, Option, none, some, List, [], ◌∷◌, ◌&&◌, ◌||◌, at_most,
  before, ltb, length, filter, take, drop, map, if◌then◌else◌, ◌==◌,
}
use qml.Base.Maps
use qml.Base.Maps.{Map}
use qml.Base.Sort.{sort_by}
use qml.Core.JobState.{JobState, JobStateKind, DateTime}
use qml.Core.Job.{Job}
use qml.Error.{StorageError, Result, ok, err}
use qml.Storage.Memory.State.{goes_first}
use qml.Storage.Memory.Jobs.{newest_first, scheduled_due, retry_due}
use qml.Storage.Postgres.Driver.{SqlxError, execute, op_failed, and_then}
use qml.Storage.Postgres.Row.{JobRow, job_state_kind_to_name, row_to_job}
use qml.Storage.Postgres.Jobs.{JobSession}

abbrev negative_limit : SqlxError
negative_limit = SqlxError.database (some "2201W") "LIMIT must not be negative"

abbrev negative_offset : SqlxError
negative_offset = SqlxError.database (some "2201X") "OFFSET must not be negative"

-- `limit as i64` is negative from 2 ^ 63 on, which the database refuses.
abbrev pub fits_i64 : ℕ → Bool
fits_i64 n = ltb n 9223372036854775808

unfoldable pub limited : {A : Type 0} → Option ℕ → List A → Result SqlxError (List A)
limited none rows = ok rows
limited (some limit) rows = if fits_i64 limit then ok (take limit rows) else err negative_limit

-- A limit that stands in the text of the query is a number that has to fit 64 bits.
abbrev limit_out_of_range : SqlxError
limit_out_of_range = SqlxError.database (some "22003") "bigint out of range"

unfoldable pub literally_limited : {A : Type 0} → Option ℕ → List A → Result SqlxError (List A)
literally_limited none rows = ok rows
literally_limited (some limit) rows =
    if fits_i64 limit then ok (take limit rows) else err limit_out_of_range

unfoldable pub skipped : {A : Type 0} → Option ℕ → List A → Result SqlxError (List A)
skipped none rows = ok rows
skipped (some offset) rows = if fits_i64 offset then ok (drop offset rows) else err negative_offset

-- Rows that a query reads.
abbrev pub reads :
    Result SqlxError (List JobRow) → Map JobRow → Result SqlxError (Map JobRow × List JobRow)
reads (ok found) rows = ok (rows, found)
reads (err e) rows = err e

abbrev pub page_of : Option ℕ → Result SqlxError (List JobRow) → Result SqlxError (List JobRow)
page_of limit (ok rows) = limited limit rows
page_of limit (err e) = err e

abbrev pub to_jobs : JobSession → List JobRow → JobSession × Result StorageError (List Job)
to_jobs s rows = (s, ok (map row_to_job rows))

-- `ORDER BY priority DESC, created_at ASC` and `ORDER BY created_at DESC`.
unfoldable pub ranks_first : JobRow → JobRow → Bool
unfolding row_to_job
ranks_first a b = goes_first (row_to_job a) (row_to_job b)

unfoldable pub created_last : JobRow → JobRow → Bool
unfolding row_to_job
created_last a b = newest_first (row_to_job a) (row_to_job b)

abbrev pub in_state : Option JobStateKind → JobRow → Bool
in_state none row = true
in_state (some k) row = row.state_name == job_state_kind_to_name k

unfoldable pub list :
    JobSession
    → Option JobStateKind
    → Option ℕ
    → Option ℕ
    → JobSession × Result StorageError (List Job)
unfolding execute created_last skipped limited
list s state_filter limit offset =
    and_then
      (op_failed "Failed to list jobs" (
        execute
          (λ rows.
            reads
              (page_of limit (
                skipped offset
                  (sort_by created_last (filter (in_state state_filter) (Maps.values rows)))))
              rows)
          s))
      to_jobs

-- The name of a state back to its kind; an unknown name is skipped.
unfoldable pub kind_of_name : String → Option JobStateKind
kind_of_name name =
    if name == "enqueued"
    then some JobStateKind.enqueued
    else if name == "processing"
    then some JobStateKind.processing
    else if name == "succeeded"
    then some JobStateKind.succeeded
    else if name == "failed"
    then some JobStateKind.failed
    else if name == "deleted"
    then some JobStateKind.deleted
    else if name == "scheduled"
    then some JobStateKind.scheduled
    else if name == "awaiting_retry"
    then some JobStateKind.awaiting_retry
    else none

-- `GROUP BY state_name` with `COUNT(*)`.
unfoldable pub count_name : String → List (String × ℕ) → List (String × ℕ)
count_name name [] = (name, 1) ∷ []
count_name name ((m, n) ∷ counts) =
    if m == name then (m, n + 1) ∷ counts else (m, n) ∷ count_name name counts

unfoldable pub group_by_name : List JobRow → List (String × ℕ)
unfolding count_name
group_by_name [] = []
group_by_name (row ∷ rows) = count_name row.state_name (group_by_name rows)

unfoldable pub known_counts : List (String × ℕ) → List (JobStateKind × ℕ)
unfolding kind_of_name
known_counts [] = []
known_counts ((name, count) ∷ rest) = elim (kind_of_name name) [
  | none ↦ known_counts rest
  | some k ↦ (k, count) ∷ known_counts rest
]

unfoldable pub get_job_counts :
    JobSession → JobSession × Result StorageError (List (JobStateKind × ℕ))
unfolding execute group_by_name known_counts
get_job_counts s =
    and_then
      (op_failed "Failed to get job counts"
        (execute (λ rows. ok (rows, group_by_name (Maps.values rows))) s))
      (λ s' counts. (s', ok (known_counts counts)))

-- A name column with the instant of its state in the JSON; of another state it is NULL.
unfoldable pub is_due_row : String → (JobState → Bool) → JobRow → Bool
is_due_row name due row = (row.state_name == name) && due row.state_data

unfoldable pub is_available_row : DateTime → JobRow → Bool
unfolding is_due_row scheduled_due retry_due
is_available_row now row =
    (row.state_name == "enqueued")
    || is_due_row "scheduled" (scheduled_due now) row
    || is_due_row "awaiting_retry" (retry_due now) row

unfoldable pub is_job_available : DateTime → JobState → Bool
is_job_available now (JobState.enqueued _ _) = true
is_job_available now (JobState.scheduled _ enqueue_at _) = at_most enqueue_at now
is_job_available now (JobState.awaiting_retry _ retry_at _) = at_most retry_at now
is_job_available now _ = false

-- `seen_at id` is the reading of the clock that `is_job_available` makes for the job.
unfoldable pub get_available_jobs :
    DateTime
    → (String → DateTime)
    → JobSession
    → Option ℕ
    → JobSession × Result StorageError (List Job)
unfolding execute ranks_first literally_limited is_available_row is_job_available
get_available_jobs now seen_at s limit =
    and_then
      (op_failed "Failed to get available jobs" (
        execute
          (λ rows.
            reads
              (literally_limited limit
                (sort_by ranks_first (filter (is_available_row now) (Maps.values rows))))
              rows)
          s))
      (λ s' rows. (
        s',
        ok (filter (λ job. is_job_available (seen_at job.id) job.state) (map row_to_job rows)),
      ))

unfoldable pub due_rows : (JobRow → Bool) → ℕ → Map JobRow → Result SqlxError (List JobRow)
unfolding ranks_first limited
due_rows due limit rows = limited (some limit) (sort_by ranks_first (filter due (Maps.values rows)))

unfoldable pub fetch_due_scheduled_jobs :
    JobSession → DateTime → ℕ → JobSession × Result StorageError (List Job)
unfolding execute due_rows is_due_row scheduled_due
fetch_due_scheduled_jobs s now limit =
    and_then
      (op_failed "Failed to fetch due scheduled jobs" (
        execute
          (λ rows. reads (due_rows (is_due_row "scheduled" (scheduled_due now)) limit rows) rows)
          s))
      to_jobs

unfoldable pub fetch_due_retry_jobs :
    JobSession → DateTime → ℕ → JobSession × Result StorageError (List Job)
unfolding execute due_rows is_due_row retry_due
fetch_due_retry_jobs s now limit =
    and_then
      (op_failed "Failed to fetch due retry jobs" (
        execute
          (λ rows. reads (due_rows (is_due_row "awaiting_retry" (retry_due now)) limit rows) rows)
          s))
      to_jobs

unfoldable pub expired : DateTime → JobRow → Bool
expired now row = elim row.expires_at [ none ↦ false | some ts ↦ before ts now ]

unfoldable pub unexpired : DateTime → JobRow → Bool
unfolding expired
unexpired now row = if expired now row then false else true

unfoldable pub delete_expired_jobs : JobSession → DateTime → JobSession × Result StorageError ℕ
unfolding execute unexpired
delete_expired_jobs s now = op_failed "Failed to delete expired jobs" (
    execute
      (λ rows. let kept = Maps.retain (unexpired now) rows in ok (kept, length rows - length kept))
      s)
