-- ===== src/Store/Files/Applied.antt =====
-- `ParseMigrations` and `Migrate` together: a release brings a directory of migrations to a database
-- that earlier releases have migrated.
use tallybook.Prelude.{◌<◌, ◌^◌, ◌≡◌, none, some, Option, List, ◌++◌, map, All}
use tallybook.Prelude.Bytes.{Bytes}
use tallybook.Prelude.Result.{ok}
use tallybook.Store.Files.{Fs, Migration, parse_migrations}
use tallybook.Store.Files.Parsed.{Parsed, parse_migrations-Parsed}
use tallybook.Store.Migrate.{Faults, Db, Outcome, rows_of, migrate}
use tallybook.Store.Migrate.Progress.{row_of, run_all, At}
use tallybook.Store.Migrate.Runs.{quiet, runs, migrate_converges}

module _ {S : Type 0} (run : Bytes → S → Option S) where
  -- Let a directory parse, and let the database have the first of its migrations, by version, none
  -- of them or all. However many runs fail in whatever way, one that meets no fault ends without an
  -- error, with all of the directory's migrations in the table in the order of their versions, and
  -- with the schema that they make, run in this order from the first schema on: where each text
  -- runs on what the ones before it made, and each version is a Postgres INTEGER.
  pub parse_migrations-migrate :
      (dir : Fs) (ms done todo : List Migration) (init final : S) (db : Db S) (fs : List Faults)
      → parse_migrations dir ≡ ok ms
      → ms ≡ done ++ todo
      → At run init done db
      → All (λ m. m.version < 2 ^ 31) ms
      → run_all run init ms ≡ some final
      → (let o : Outcome S = migrate run quiet (runs run fs db ms) ms in
          (o.error ≡ none) × (o.db.schema ≡ final) × (rows_of o.db ≡ map row_of ms))
  parse_migrations-migrate dir ms done todo init final db fs p s a v e =
      let parsed : Parsed dir ms = parse_migrations-Parsed dir ms p in
      migrate_converges run init final fs ms db parsed.ascending
        (record { done = done; todo = todo; split = s; at = a }) v e
