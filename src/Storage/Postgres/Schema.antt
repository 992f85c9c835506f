-- ===== src/Storage/Postgres/Schema.antt =====
-- The schema checks and migrations of src/storage/postgres.rs, on the names in the catalog of the
-- database. A schema is present if the catalog lists it, a table under its schema and its name.
pub mod Current
use qml.Base.{
  String, Bool, true, false, not, ◌&&◌, Option, none, some, List, [], ◌∷◌, ◌++◌, if◌then◌else◌,
  ◌==◌, ◌<>◌,
}
use qml.Error.{StorageError, Result, ok, err}
use qml.Storage.Config.Postgres.{PostgresConfig}
use qml.Storage.Postgres.Driver.{
  SqlxError, Session, sqlx_text, execute, op_failed, and_then, migrate,
}

pub record Catalog : Type 0 where
  pub schemas : List String
  pub tables : List (String × String)

abbrev pub contains : List String → String → Bool
contains [] x = false
contains (y ∷ ys) x = if y == x then true else contains ys x

abbrev pub lists : List (String × String) → String → String → Bool
lists [] schema table = false
lists ((s, t) ∷ rest) schema table =
    if (s == schema) && (t == table) then true else lists rest schema table

abbrev pub jobs_table_name : String
jobs_table_name = "qml_jobs"

abbrev pub current_schema_tables : List String
current_schema_tables = jobs_table_name ∷ "qml_recurring_jobs" ∷ "qml_servers" ∷ "qml_locks" ∷ []

-- `install.sql` creates the schema `qml` and its four tables, whatever the configuration says. The
-- catalog may list a name twice.
unfoldable pub install_sql : Catalog → Catalog
install_sql c = record {
  schemas = "qml" ∷ c.schemas;
  tables =
      ("qml", jobs_table_name)
      ∷ ("qml", "qml_recurring_jobs")
      ∷ ("qml", "qml_servers")
      ∷ ("qml", "qml_locks")
      ∷ c.tables;
}

abbrev pub Checked : Type 0 → Type 0
Checked A = Session Catalog × Result StorageError A

unfoldable pub check_schema_present : PostgresConfig → Session Catalog → Checked Bool
unfolding execute
check_schema_present config s =
    op_failed "Failed to check schema existence"
      (execute (λ c. ok (c, contains c.schemas config.schema_name)) s)

unfoldable pub table_exists : PostgresConfig → String → Session Catalog → Checked Bool
unfolding execute
table_exists config table_name s =
    op_failed ("Failed to check table existence for '" <> table_name <> "'")
      (execute (λ c. ok (c, lists c.tables config.schema_name table_name)) s)

unfoldable pub schema_exists : PostgresConfig → Session Catalog → Checked Bool
unfolding check_schema_present table_exists
schema_exists config s =
    and_then (check_schema_present config s)
      (λ s' present. if present then table_exists config config.table_name s' else (s', ok false))

-- The loop over the tables, which returns at the first that is missing.
unfoldable pub tables_exist : PostgresConfig → List String → Session Catalog → Checked Bool
unfolding table_exists
tables_exist config [] s = (s, ok true)
tables_exist config (table ∷ tables) s =
    and_then (table_exists config table s)
      (λ s' there. if there then tables_exist config tables s' else (s', ok false))

unfoldable pub configured_exists : PostgresConfig → Session Catalog → Checked Bool
unfolding table_exists
configured_exists config s =
    if config.table_name == jobs_table_name
    then (s, ok true)
    else table_exists config config.table_name s

-- What follows the loop, and what follows the check of the schema.
unfoldable pub after_tables : PostgresConfig → Session Catalog → Bool → Checked Bool
unfolding configured_exists
after_tables config s all_there = if all_there then configured_exists config s else (s, ok false)

unfoldable pub after_schema : PostgresConfig → Session Catalog → Bool → Checked Bool
unfolding tables_exist after_tables
after_schema config s present =
    if present
    then and_then (tables_exist config current_schema_tables s) (after_tables config)
    else (s, ok false)

unfoldable pub schema_is_current : PostgresConfig → Session Catalog → Checked Bool
unfolding check_schema_present after_schema
schema_is_current config s = and_then (check_schema_present config s) (after_schema config)

-- The answer of a check that failed is dropped: the migration is tried anyway.
abbrev pub migrated : Session Catalog × Result StorageError (Unit {0}) → Checked Bool
migrated p = and_then p (λ s _. (s, ok true))

-- The `match` on the check.
unfoldable pub after_check : Session Catalog × Result StorageError Bool → Checked Bool
unfolding migrate install_sql
after_check (s, ok is_current) =
    if is_current then (s, ok false) else migrated (migrate install_sql s)
after_check (s, err e) = migrated (migrate install_sql s)

unfoldable pub migrate_if_needed : PostgresConfig → Session Catalog → Checked Bool
unfolding schema_is_current after_check
migrate_if_needed config s = after_check (schema_is_current config s)

-- `connected` is the answer to the connection of the pool.
unfoldable pub new : PostgresConfig → Option SqlxError → Session Catalog → Checked (Unit {0})
unfolding migrate_if_needed
new config connected s = elim connected [
  | some e ↦ (
    s,
    err (
        StorageError.connection ("Failed to connect to PostgreSQL: " <> sqlx_text e)
          (some (sqlx_text e))),
  )
  | none ↦
      if config.auto_migrate
      then and_then (migrate_if_needed config s) (λ s' _. (s', ok tt))
      else (s, ok tt)
]
