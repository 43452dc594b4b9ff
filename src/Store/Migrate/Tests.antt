-- ===== src/Store/Migrate/Tests.antt =====
-- internal/store/migrate.go: two migrations on a schema that is the texts that have run.
use tallybook.Prelude.{
  ℕ, ◌≡◌, refl, false, Option, none, some, List, [], ◌∷◌, map, arith, ◌==◌, if◌then◌else◌,
}
use tallybook.Prelude.Bytes.{Bytes, bytes_eq, ascii}
use tallybook.Store.Files.{Migration}
use tallybook.Store.Migrate.{
  works, breaks_after, Faults, Db, rows_of, migrate, apply_failed, commit_failed,
}
use tallybook.Store.Migrate.Progress.{row_of, run_all, At}
use tallybook.Store.Migrate.Advances.{Advanced}
use tallybook.Store.Migrate.Converges.{migrate-Advanced}
use tallybook.Store.Migrate.Runs.{quiet_tx, quiet}

abbrev toy_run : Bytes → List Bytes → Option (List Bytes)
toy_run sql texts = if bytes_eq sql (ascii "BAD") then none else some (sql ∷ texts)

abbrev made : ℕ → Bytes → Migration
made v sql = record { version = v; name = ascii "m"; filename = ascii "m.sql"; sql = sql }

abbrev two : List Migration
two = made 1 (ascii "A") ∷ made 2 (ascii "B") ∷ []

abbrev fresh : Db (List Bytes)
fresh = record { schema = []; applied = none }

-- The commit of the first migration goes through and its answer is lost.
abbrev lossy : Faults
lossy = record {
  on_create = works;
  on_query = false;
  on_tx = λ v. if v == 1 then record quiet_tx { on_commit = breaks_after } else quiet_tx;
}

quiet_test : migrate toy_run quiet fresh two ≡ record {
  db = record { schema = ascii "B" ∷ ascii "A" ∷ []; applied = some (map row_of two) };
  newly_applied = two;
  error = none;
}
unfolding migrate bytes_eq
quiet_test = refl

lossy_test : migrate toy_run lossy fresh two ≡ record {
  db = record { schema = ascii "A" ∷ []; applied = some (row_of (made 1 (ascii "A")) ∷ []) };
  newly_applied = [];
  error = some (commit_failed (ascii "m.sql"));
}
unfolding migrate bytes_eq
lossy_test = refl

bad_test :
    (migrate toy_run quiet fresh (made 1 (ascii "A") ∷ made 2 (ascii "BAD") ∷ [])).error
    ≡ some (apply_failed (ascii "m.sql"))
unfolding migrate bytes_eq
bad_test = refl

fresh-At : At toy_run [] [] fresh
unfolding rows_of run_all
fresh-At = record { rows = refl; schema = refl }

migrate-Advanced_example : Advanced toy_run [] [] two (migrate toy_run lossy fresh two)
migrate-Advanced_example =
    migrate-Advanced toy_run lossy [] [] two fresh ((omega arith, tt), (tt, tt)) fresh-At
