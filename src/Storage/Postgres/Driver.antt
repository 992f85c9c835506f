-- ===== src/Storage/Postgres/Driver.antt =====
-- The queries of src/storage/postgres.rs as the driver answers them, and the repair of a missing
-- schema.
pub mod Repair
use qml.Base.{
  String, Bool, true, false, Option, none, some, List, [], ◌∷◌, ◌||◌, if◌then◌else◌, ◌==◌, ◌<>◌,
}
use qml.Error.{StorageError, Result, ok, err}

-- `sqlx::Error`: an error of the database has a code, if any, and each error has its text.
pub data SqlxError : Type 0 where
  database : Option String → String → SqlxError
  other : String → SqlxError

abbrev pub sqlx_text : SqlxError → String
sqlx_text (SqlxError.database _ text) = text
sqlx_text (SqlxError.other text) = text

abbrev pub code_or_default : Option String → String
code_or_default none = ""
code_or_default (some code) = code

unfoldable pub is_schema_error : SqlxError → Bool
is_schema_error (SqlxError.database code _) =
    (code_or_default code == "42P01") || (code_or_default code == "3F000")
is_schema_error (SqlxError.other _) = false

-- How a query fails: the database or the driver refuses it, and it has changed no row; or the
-- connection is lost before the answer, and the database may have run it all the same.
pub data Fault : Type 0 where
  refused : SqlxError → Fault
  lost : String → Fault

-- The rows of a database, and for each query to come how it fails, if it does. After the last one no
-- query fails.
pub record Session (T : Type 0) : Type 0 where
  pub rows : T
  pub faults : List (Option Fault)

module _ {T : Type 0} where
  abbrev settled :
      {A : Type 0}
      → T
      → List (Option Fault)
      → Result SqlxError (T × A)
      → Session T × Result SqlxError A
  settled rows faults (ok (rows', a)) = (record { rows = rows'; faults = faults }, ok a)
  settled rows faults (err e) = (record { rows = rows; faults = faults }, err e)

  abbrev run_unheard : {A : Type 0} → T → Result SqlxError (T × A) → T
  run_unheard rows (ok (rows', _)) = rows'
  run_unheard rows (err _) = rows

  -- One query.
  unfoldable pub execute :
      {A : Type 0} → (T → Result SqlxError (T × A)) → Session T → Session T × Result SqlxError A
  execute query s = elim s.faults [
    | [] ↦ settled s.rows [] (query s.rows)
    | (none ∷ rest) ↦ settled s.rows rest (query s.rows)
    | (some fault ∷ rest) ↦ elim fault [
      | refused e ↦ (record { rows = s.rows; faults = rest }, err e)
      | lost text ↦ (
        record { rows = run_unheard s.rows (query s.rows); faults = rest },
        err (SqlxError.other text),
      )
    ]
  ]

  -- `.map_err(…)` with the text of the error behind a message, and the error as the source.
  abbrev pub op_failed :
      {A : Type 0} → String → Session T × Result SqlxError A → Session T × Result StorageError A
  op_failed message (s, ok a) = (s, ok a)
  op_failed message (s, err e) =
      (s, err (StorageError.operation_failed (message <> ": " <> sqlx_text e) (some (sqlx_text e))))

  -- `?`.
  abbrev pub and_then :
      {A B : Type 0}
      → Session T × Result StorageError A
      → (Session T → A → Session T × Result StorageError B)
      → Session T × Result StorageError B
  and_then (s, ok a) k = k s a
  and_then (s, err e) k = (s, err e)

  -- `install` is what `install.sql` does.
  unfoldable pub migrate : (T → T) → Session T → Session T × Result StorageError (Unit {0})
  unfolding execute
  migrate install s =
      let (s', answer) = execute (λ rows. ok (install rows, tt)) s in
      elim answer [
        | ok _ ↦ (s', ok tt)
        | err e ↦ (
          s',
          err (StorageError.migration_error ("QML schema installation failed: " <> sqlx_text e)),
        )
      ]

  -- "Retry the operation once after migration".
  abbrev pub retry :
      {A : Type 0}
      → (Session T → Session T × Result SqlxError A)
      → String
      → Session T
      → Unit {0}
      → Session T × Result StorageError A
  retry operation operation_name s _ =
      op_failed (operation_name <> ": operation failed even after migration") (operation s)

  -- The `match` on the first answer. `install.sql` creates what is missing, and leaves the rows that
  -- there are.
  unfoldable pub after_answer :
      {A : Type 0}
      → Bool
      → (Session T → Session T × Result SqlxError A)
      → String
      → Session T × Result SqlxError A
      → Session T × Result StorageError A
  unfolding is_schema_error migrate
  after_answer auto_migrate operation operation_name (s, ok a) = (s, ok a)
  after_answer auto_migrate operation operation_name (s, err e) =
      if is_schema_error e
      then if auto_migrate
        then and_then (migrate (λ rows. rows) s) (retry operation operation_name)
        else op_failed
            (operation_name
              <> ": schema error detected but auto_migrate is disabled — run migrations manually")
            (s, err e)
      else op_failed (operation_name <> ": database operation failed") (s, err e)

  unfoldable pub handle_schema_error :
      {A : Type 0}
      → Bool
      → (Session T → Session T × Result SqlxError A)
      → String
      → Session T
      → Session T × Result StorageError A
  unfolding after_answer
  handle_schema_error auto_migrate operation operation_name s =
      after_answer auto_migrate operation operation_name (operation s)
