-- ===== src/Storage/Examples/Tables.antt =====
-- Runs and instances of the Postgres backend.
use qml.Base.{
  ◌≡◌, ◌∙◌, ap, ◌≢◌, ◌↔◌, refl, inr, eq_iff, pos, ◌+ℤ◌, String, true, false, none, some, List, [],
  ◌∷◌, arith, ◌<ℤ◌,
}
use qml.Base.Maps
use qml.Storage.Postgres.Leases.{try_acquire_lock}
use qml.Storage.Postgres.Leases.Exclusion.{
  LockCall, acquires, releases, sweeps, lock_run, lock_taken_alone,
}
use qml.Storage.Memory.State.{NamedLock}
use qml.Core.JobState.{JobState, JobStateKind, JobStateKind-discrete}
use qml.Core.Job.{Job}
use qml.Error.{Result, ok}
use qml.Storage.Config.Postgres.{with_defaults}
use qml.Storage.Memory.State.{is_at_capacity, len}
use qml.Storage.Memory.Jobs
use qml.Storage.Postgres.Driver.{SqlxError, refused, Session, execute, handle_schema_error}
use qml.Storage.Postgres.Driver.Repair.{Effect, Sent, handled_once}
use qml.Storage.Postgres.Row.{JobRow, inserted_row, row_to_job}
use qml.Storage.Postgres.Row.Columns.{Typed, Fits, row_to_job-inserted_row}
use qml.Storage.Postgres.Jobs.{insert_row}
use qml.Storage.Postgres.Jobs.Agreement.{calm}
use qml.Storage.Postgres.Jobs.Calls.{Call, gets, enqueues, updates, swaps, deletes}
use qml.Storage.Postgres.Jobs.Runs.{
  memory_answers, postgres_answers, AllAdmissible, runs_answer_alike,
}
use qml.Storage.Postgres.Schema.{Catalog, install_sql, migrate_if_needed}
use qml.Storage.Postgres.Schema.Current.{is_current, quiet, migrate_if_needed_lem}
use qml.Storage.Postgres.Locker.{fetch_and_lock_job}
use qml.Storage.Postgres.Locker.Taking.{MayTake, Outcome, fetch_takes, retry_taken_early}
use qml.Storage.Examples.{low, high, retried, empty}

abbrev as_printed : String → Result String String
as_printed id = ok id

low-Typed : Typed low
low-Typed = (omega arith, omega arith, λ t e. absurd (cc))

low-Fits : Fits low
low-Fits = (omega arith, λ t e. absurd (cc))

row_to_job-inserted_row_example :
    (row_to_job (inserted_row "u1" low) ≡ record low { id = "u1" }) ↔ Fits low
row_to_job-inserted_row_example = row_to_job-inserted_row "u1" low low-Typed

abbrev started : Job
started = record low { state = JobState.processing (pos 6) "w1" "s1" }

abbrev calls : List Call
calls =
    enqueues low
    ∷ swaps started JobStateKind.enqueued
    ∷ swaps started JobStateKind.enqueued
    ∷ gets "low"
    ∷ deletes "low"
    ∷ updates low
    ∷ []

kept :
    (j existing : Job) → some j ≡ some existing → pos 5 ≡ j.created_at → pos 5 ≡ existing.created_at
kept j existing e h = let same : j ≡ existing = cc in h ∙ ap (λ k. k.created_at) same

calls-AllAdmissible : AllAdmissible as_printed (record empty { jobs = [] }) calls
unfolding Jobs.enqueue Jobs.enqueue_insert Jobs.update_if_state Jobs.delete Jobs.update Jobs.get
    is_at_capacity len Maps.get Maps.insert Maps.remove Maps.contains_key JobStateKind-discrete
calls-AllAdmissible = (
  ((refl, low-Typed, low-Fits, λ j e. absurd (cc)), refl, refl),
  (
    (refl, low-Typed, low-Fits, λ j e. kept low j e refl),
    (
      (refl, low-Typed, low-Fits, λ j e. kept started j e refl),
      (refl, (refl, ((refl, low-Typed, low-Fits, λ j e. absurd (cc)), tt))),
    ),
  ),
)

runs_answer_alike_example :
    postgres_answers as_printed true (calm []) calls
    ≡ memory_answers (record empty { jobs = [] }) calls
unfolding Maps.get
runs_answer_alike_example =
    runs_answer_alike as_printed true [] (record empty { jobs = [] }) calls (λ id. tt)
      calls-AllAdmissible

missing : SqlxError
missing = SqlxError.database (some "42P01") "relation does not exist"

abbrev lost_table : Session (Maps.Map JobRow)
lost_table = record { rows = []; faults = some (refused missing) ∷ none ∷ none ∷ [] }

handled_once_example :
    let r =
      handle_schema_error true
        (execute (insert_row (inserted_row "low" low)))
        "enqueue"
        lost_table in
    Effect (insert_row (inserted_row "low" low)) [] r
    × Sent true (execute (insert_row (inserted_row "low" low)) lost_table).1 lost_table r.0
handled_once_example = handled_once (insert_row (inserted_row "low" low)) true "enqueue" lost_table

abbrev bare : Catalog
bare = record { schemas = "public" ∷ []; tables = [] }

migrate_if_needed_lem_example :
    (is_current with_defaults bare ≡ true
      → migrate_if_needed with_defaults (quiet bare) ≡ (quiet bare, ok false))
    × (is_current with_defaults bare ≡ false
        → (migrate_if_needed with_defaults (quiet bare) ≡ (quiet (install_sql bare), ok true))
          × (with_defaults.schema_name ≡ "qml"
              → with_defaults.table_name ≡ "qml_jobs"
              → is_current with_defaults (install_sql bare) ≡ true)
          × (with_defaults.schema_name ≢ "qml"
              → is_current with_defaults (install_sql bare) ≡ false))
migrate_if_needed_lem_example = migrate_if_needed_lem with_defaults bare

abbrev table : Maps.Map JobRow
table = ("low", inserted_row "low" low) ∷ ("high", inserted_row "high" high) ∷ []

fetch_takes_example :
    Outcome
      (pos 9)
      (λ id. false)
      table
      "w1"
      none
      (fetch_and_lock_job (pos 9) (λ id. false) (calm table) "w1" none)
unfolding inserted_row Maps.get
fetch_takes_example =
    fetch_takes (pos 9) (λ id. false) table "w1" none (refl, (refl, tt)) (refl, (refl, tt))

abbrev retried_row : JobRow
retried_row = inserted_row "retried" retried

only_retried :
    (k : String) (other : JobRow)
    → Maps.get k (("retried", retried_row) ∷ []) ≡ some other
    → k ≢ "retried"
    → MayTake (λ id. false) none other
    → other.priority <ℤ retried_row.priority
unfolding Maps.get
only_retried k other stored n may = absurd (ground (arith, eq_iff "retried" k, n, stored))

-- It may run at 95, and is taken at 9.
retry_taken_early_example :
    let r =
      fetch_and_lock_job (pos 9) (λ id. false) (calm (("retried", retried_row) ∷ [])) "w1" none in
    (r.1
      ≡ ok (
          some (record (row_to_job retried_row) {
            state = JobState.processing (pos 9) "w1" "postgres-storage";
          })))
    × (Maps.get "retried" r.0.rows
        ≡ some (record retried_row {
          state_name = "processing";
          state_data = JobState.processing (pos 9) "w1" "postgres-storage";
        }))
unfolding inserted_row Maps.get
retry_taken_early_example =
    retry_taken_early (pos 9) (λ id. false) (("retried", retried_row) ∷ []) "w1" none (refl, tt)
      (refl, tt) (pos 5) (pos 95) "boom" retried_row refl refl refl tt refl only_retried

abbrev no_locks : Session (Maps.Map NamedLock)
no_locks = record { rows = []; faults = [] }

leader_chosen : (try_acquire_lock (pos 100) no_locks "leader" "a" 50).1 ≡ ok true
unfolding try_acquire_lock Maps.get
leader_chosen = refl

abbrev rivals : List LockCall
rivals = acquires (pos 110) "leader" "b" 70 ∷ releases "leader" "b" ∷ sweeps (pos 120) ∷ []

names_differ : ◌≢◌ {A = String} "b" "a"
names_differ e = let t : false ≡ true = (eq_iff "b" "a").1 e in cc

lock_taken_alone_example :
    (try_acquire_lock
      (pos 150)
      (lock_run (try_acquire_lock (pos 100) no_locks "leader" "a" 50).0 rivals)
      "leader"
      "b"
      70).1
    ≢ ok true
unfolding ◌+ℤ◌
lock_taken_alone_example =
    lock_taken_alone no_locks (pos 100) (pos 150) "leader" "a" "b" 50 70 rivals tt names_differ
      (omega arith) leader_chosen
      (inr (names_differ, omega arith), (inr names_differ, (omega arith, tt)))
