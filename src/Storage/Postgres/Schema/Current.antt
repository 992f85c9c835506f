-- ===== src/Storage/Postgres/Schema/Current.antt =====
-- What `migrate_if_needed` of src/storage/postgres.rs brings about.
use qml.Base.{
  ◌≡◌, ◌≢◌, ◌∙◌, inl, inr, refl, ap, String, Bool, true, false, List, [], ◌∷◌, if◌then◌else◌, ◌==◌,
  eq_iff, Bool-cases, arith,
}
use qml.Error.{ok}
use qml.Storage.Config.Postgres.{PostgresConfig}
use qml.Storage.Postgres.Driver.{Session, execute, migrate, and_then}
use qml.Storage.Postgres.Schema.{
  Catalog, contains, lists, jobs_table_name, current_schema_tables, install_sql,
  check_schema_present, table_exists, tables_exist, configured_exists, schema_is_current,
  after_tables, after_schema, after_check, migrate_if_needed,
}

abbrev pub quiet : Catalog → Session Catalog
quiet c = record { rows = c; faults = [] }

abbrev all_listed : PostgresConfig → List String → Catalog → Bool
all_listed config [] c = true
all_listed config (table ∷ tables) c =
    if lists c.tables config.schema_name table then all_listed config tables c else false

-- What the current release expects under the configured names.
abbrev pub is_current : PostgresConfig → Catalog → Bool
is_current config c =
    if contains c.schemas config.schema_name
    then if all_listed config current_schema_tables c
      then if config.table_name == jobs_table_name
        then true
        else lists c.tables config.schema_name config.table_name
      else false
    else false

tables_exist_lem :
    (config : PostgresConfig) (tables : List String) (c : Catalog)
    → tables_exist config tables (quiet c) ≡ (quiet c, ok (all_listed config tables c))
unfolding tables_exist table_exists execute
tables_exist_lem config [] c = refl
tables_exist_lem config (table ∷ tables) c =
    elim (Bool-cases (lists c.tables config.schema_name table)) [
      | inl h ↦ rw h (tables_exist_lem config tables c)
      | inr h ↦ rw h refl
    ]

after_tables_lem :
    (config : PostgresConfig) (c : Catalog) (b : Bool)
    → after_tables config (quiet c) b ≡ (
      quiet c,
      ok (
          if b
          then if config.table_name == jobs_table_name
            then true
            else lists c.tables config.schema_name config.table_name
          else false),
    )
unfolding after_tables configured_exists table_exists execute
after_tables_lem config c false = refl
after_tables_lem config c true = elim (Bool-cases (config.table_name == jobs_table_name)) [
  | inl h ↦ rw h refl
  | inr h ↦ rw h refl
]

after_schema_lem :
    (config : PostgresConfig) (c : Catalog)
    → after_schema config (quiet c) true ≡ (
      quiet c,
      ok (
          if all_listed config current_schema_tables c
          then if config.table_name == jobs_table_name
            then true
            else lists c.tables config.schema_name config.table_name
          else false),
    )
unfolding after_schema
after_schema_lem config c =
    ap (λ p. and_then p (after_tables config)) (tables_exist_lem config current_schema_tables c)
    ∙ after_tables_lem config c (all_listed config current_schema_tables c)

schema_is_current_lem :
    (config : PostgresConfig) (c : Catalog)
    → schema_is_current config (quiet c) ≡ (quiet c, ok (is_current config c))
unfolding schema_is_current check_schema_present execute after_schema
schema_is_current_lem config c = elim (Bool-cases (contains c.schemas config.schema_name)) [
  | inl h ↦ rw h (after_schema_lem config c)
  | inr h ↦ rw h refl
]

-- `install.sql` serves the schema `qml` alone.
elsewhere :
    (config : PostgresConfig) (c : Catalog)
    → config.schema_name ≢ "qml"
    → is_current config (install_sql c) ≡ is_current config c
unfolding install_sql
elsewhere config c other =
    let h : ("qml" == config.schema_name) ≡ false =
      ground (arith, eq_iff "qml" config.schema_name) in
    rw h refl

installed :
    (config : PostgresConfig) (c : Catalog)
    → config.schema_name ≡ "qml"
    → config.table_name ≡ jobs_table_name
    → is_current config (install_sql c) ≡ true
unfolding install_sql
installed config c schema table = rw (schema, table) refl

-- While no query fails: a current database is left alone; any other is migrated, and is current from
-- then on if the configuration has the default names. A schema of another name is never made: the
-- database is as far from current as before, and the same migration is run at every start.
pub migrate_if_needed_lem :
    (config : PostgresConfig) (c : Catalog)
    → (is_current config c ≡ true → migrate_if_needed config (quiet c) ≡ (quiet c, ok false))
      × (is_current config c ≡ false
          → (migrate_if_needed config (quiet c) ≡ (quiet (install_sql c), ok true))
            × (config.schema_name ≡ "qml"
                → config.table_name ≡ jobs_table_name
                → is_current config (install_sql c) ≡ true)
            × (config.schema_name ≢ "qml" → is_current config (install_sql c) ≡ false))
unfolding migrate_if_needed after_check migrate execute
migrate_if_needed_lem config c = (
  λ current. ap after_check (schema_is_current_lem config c) ∙ rw current refl,
  λ old. (
    ap after_check (schema_is_current_lem config c) ∙ rw old refl,
    installed config c,
    λ other. elsewhere config c other ∙ old,
  ),
)
