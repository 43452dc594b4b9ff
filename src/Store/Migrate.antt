-- ===== src/Store/Migrate.antt =====
-- internal/store/migrate.go: `Migrate` and `appliedVersions`. The database is the schema and the
-- table `schema_migrations`, which may not be there yet; what the text of a migration does to a
-- schema, where it runs at all, is the parameter `run`. A transaction works on a copy, which takes
-- the database's place at the commit. What goes wrong on the way to the database and back is the
-- argument `Faults`.
pub mod Progress
pub mod Advances
pub mod Converges
pub mod Runs
mod Tests
use tallybook.Prelude.{
  ℕ, ◌^◌, Bool, true, false, ◌||◌, Option, none, some, List, [], ◌∷◌, ◌++◌, ltb, ◌==◌,
  if◌then◌else◌,
}
use tallybook.Prelude.Bytes.{Bytes}
use tallybook.Store.Files.{Migration}

-- A row of `schema_migrations`; `applied_at` is left out.
pub record Row : Type 0 where
  pub version : ℕ
  pub name : Bytes

pub data MigrateError : Type 0 where
  create_table_failed : MigrateError
  query_failed : MigrateError
  begin_failed : Bytes → MigrateError
  apply_failed : Bytes → MigrateError
  record_failed : Bytes → MigrateError
  commit_failed : Bytes → MigrateError

-- A statement's connection works, breaks before the statement takes effect, or breaks after it has
-- and before its answer arrives.
pub data Link : Type 0 where
  works breaks_before breaks_after : Link

-- The faults of one migration's transaction: whether BEGIN, the migration's text and the INSERT
-- fail on the way, and the commit's link.
pub record TxFaults : Type 0 where
  pub on_begin : Bool
  pub on_exec : Bool
  pub on_record : Bool
  pub on_commit : Link

-- The faults of one call; those of a migration go by its version.
pub record Faults : Type 0 where
  pub on_create : Link
  pub on_query : Bool
  pub on_tx : ℕ → TxFaults

-- Whether a version stands in the table.
unfoldable pub is_applied : ℕ → List Row → Bool
is_applied v [] = false
is_applied v (r ∷ rows) = r.version == v || is_applied v rows

-- `INSERT INTO schema_migrations (version, name)`: the version is a primary key and an INTEGER.
unfoldable pub insert_row : Migration → List Row → Option (List Row)
unfolding is_applied
insert_row m rows =
    if ltb m.version (2 ^ 31)
    then if is_applied m.version rows
      then none
      else some (rows ++ (record { version = m.version; name = m.name } ∷ []))
    else none

pub record Db (S : Type 0) : Type 0 where
  pub schema : S
  pub applied : Option (List Row)

pub record Outcome (S : Type 0) : Type 0 where
  pub db : Db S
  pub newly_applied : List Migration
  pub error : Option MigrateError

module _ {S : Type 0} where
  -- The rows, none where there is no table.
  unfoldable pub rows_of : Db S → List Row
  rows_of db = elim db.applied [ none ↦ [] | some rows ↦ rows ]

  -- `CREATE TABLE IF NOT EXISTS schema_migrations`
  unfoldable pub create_table : Db S → Db S
  unfolding rows_of
  create_table db = record db { applied = some (rows_of db) }

module _ {S : Type 0} (run : Bytes → S → Option S) where
  unfoldable pub commit_tx : Link → Db S → Db S → Db S × Bool
  commit_tx works db tx = (tx, true)
  commit_tx breaks_before db tx = (db, false)
  commit_tx breaks_after db tx = (tx, false)

  -- The transaction from its INSERT on; `schema` is its copy, the migration's text run.
  unfoldable pub record_tx :
      TxFaults → Db S → Migration → S → Option (List Row) → Db S × Option MigrateError
  unfolding commit_tx
  record_tx f db m schema none = (db, some (record_failed m.filename))
  record_tx f db m schema (some rows) =
      if f.on_record
      then (db, some (record_failed m.filename))
      else (let (db', done) =
            commit_tx f.on_commit db (record { schema = schema; applied = some rows }) in
          if done then (db', none) else (db', some (commit_failed m.filename)))

  unfoldable pub exec_tx : TxFaults → Db S → Migration → Option S → Db S × Option MigrateError
  unfolding record_tx insert_row rows_of
  exec_tx f db m none = (db, some (apply_failed m.filename))
  exec_tx f db m (some schema) =
      if f.on_exec
      then (db, some (apply_failed m.filename))
      else record_tx f db m schema (insert_row m (rows_of db))

  -- The body of the loop for a migration that is not skipped.
  unfoldable pub apply_migration : TxFaults → Db S → Migration → Db S × Option MigrateError
  unfolding exec_tx
  apply_migration f db m =
      if f.on_begin
      then (db, some (begin_failed m.filename))
      else exec_tx f db m (run m.sql db.schema)

  -- The loop; `applied` is the table as it was read before it.
  unfoldable pub migrate_loop : (ℕ → TxFaults) → List Row → Db S → List Migration → Outcome S
  unfolding apply_migration
  migrate_loop f applied db [] = record { db = db; newly_applied = []; error = none }
  migrate_loop f applied db (m ∷ ms) = elim (is_applied m.version applied) [
    | true ↦ migrate_loop f applied db ms
    | false ↦
        let (db', e) = apply_migration (f m.version) db m in
        elim e [
          | some x ↦ record { db = db'; newly_applied = []; error = some x }
          | none ↦
              let rest = migrate_loop f applied db' ms in
              record { db = rest.db; newly_applied = m ∷ rest.newly_applied; error = rest.error }
        ]
  ]

  unfoldable pub migrate_created : Faults → Db S → List Migration → Outcome S
  unfolding migrate_loop
  migrate_created f db ms =
      if f.on_query
      then record { db = db; newly_applied = []; error = some query_failed }
      else migrate_loop f.on_tx (rows_of db) db ms

  unfoldable pub migrate : Faults → Db S → List Migration → Outcome S
  unfolding migrate_created create_table
  migrate f db ms = elim f.on_create [
    | works ↦ migrate_created f (create_table db) ms
    | breaks_before ↦ record { db = db; newly_applied = []; error = some create_table_failed }
    | breaks_after ↦ record {
      db = create_table db;
      newly_applied = [];
      error = some create_table_failed;
    }
  ]
