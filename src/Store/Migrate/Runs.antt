-- ===== src/Store/Migrate/Runs.antt =====
-- internal/store/migrate.go: `Migrate` at every start of a service, until a run goes through.
use tallybook.Prelude.{
  ◌<◌, ◌^◌, ◌≡◌, refl, sym, ap, ◌∙◌, subst, false, Option, none, some, List, [], ◌∷◌, ◌++◌, map,
  append-nil, append_assoc, All, arith, Option-cases, inl, inr,
}
use tallybook.Prelude.Bytes.{Bytes}
use tallybook.Store.Files.{Migration}
use tallybook.Store.Files.Sort.{IsAscending}
use tallybook.Store.Migrate.{
  Row, works, TxFaults, Faults, is_applied, insert_row, Db, Outcome, rows_of, create_table,
  commit_tx, record_tx, exec_tx, apply_migration, migrate_loop, migrate,
}
use tallybook.Store.Migrate.Progress.{row_of, run_all, At, At-snoc}
use tallybook.Store.Migrate.Advances.{Pending, todo-Pending, Advanced, loop_goes_on}
use tallybook.Store.Migrate.Converges.{create_table-At, created-loop, migrate-Advanced}

-- No fault.
abbrev pub quiet_tx : TxFaults
quiet_tx = record { on_begin = false; on_exec = false; on_record = false; on_commit = works }

abbrev pub quiet : Faults
quiet = record { on_create = works; on_query = false; on_tx = λ v. quiet_tx }

module _ {S : Type 0} (run : Bytes → S → Option S) where
  -- Runs of `migrate`, one after the other, each with its own faults.
  unfoldable pub runs : List Faults → Db S → List Migration → Db S
  runs [] db ms = db
  runs (f ∷ fs) db ms = runs fs (migrate run f db ms).db ms

  -- A database that has come some way through a list.
  pub record Within (init : S) (ms : List Migration) (db : Db S) : Type 0 where
    pub done : List Migration
    pub todo : List Migration
    pub split : ms ≡ done ++ todo
    pub at : At run init done db

  migrate-Within :
      (f : Faults) (init : S) (ms : List Migration) (db : Db S)
      → IsAscending ms
      → Within init ms db
      → Within init ms (migrate run f db ms).db
  migrate-Within f init ms db a w =
      let h : Advanced run init w.done w.todo (migrate run f db (w.done ++ w.todo)) =
        migrate-Advanced run f init w.done w.todo db (subst IsAscending w.split a) w.at in
      record {
        done = w.done ++ h.more;
        todo = h.rest;
        split = w.split ∙ ap (λ x. w.done ++ x) h.split ∙ sym (append_assoc w.done h.more h.rest);
        at = subst (λ x. At run init (w.done ++ h.more) (migrate run f db x).db) (sym w.split) h.at;
      }

  runs-Within :
      (fs : List Faults) (init : S) (ms : List Migration) (db : Db S)
      → IsAscending ms
      → Within init ms db
      → Within init ms (runs fs db ms)
  unfolding runs
  runs-Within [] init ms db a w = w
  runs-Within (f ∷ fs) init ms db a w =
      runs-Within fs init ms (migrate run f db ms).db a (migrate-Within f init ms db a w)

  run_all-append :
      (init s : S) (done todo : List Migration)
      → run_all run init done ≡ some s
      → run_all run init (done ++ todo) ≡ run_all run s todo
  unfolding run_all
  run_all-append init s [] todo h = let e : init ≡ s = cc in ap (λ x. run_all run x todo) e
  run_all-append init s (n ∷ done) todo h = elim (Option-cases (run n.sql init)) [
    | inl f ↦ ground arith
    | inr (t, f) ↦
        let k : run_all run t done ≡ some s = ground arith in
        rw (f, run_all) (run_all-append t s done todo k)
  ]

  module _ (init final : S) where
    -- A migration's transaction without a fault, where its text runs.
    quiet_commits :
        (done todo : List Migration) (m : Migration) (db : Db S) (t : S)
        → IsAscending (done ++ (m ∷ todo))
        → At run init done db
        → m.version < 2 ^ 31
        → run m.sql db.schema ≡ some t
        → (db' : Db S) × (apply_migration run quiet_tx db m ≡ (db', none))
          × At run init (done ++ (m ∷ [])) db'
    unfolding apply_migration exec_tx record_tx insert_row commit_tx
    quiet_commits done todo m db t a h v e =
        let rows : List Row = rows_of db ++ (row_of m ∷ []) in
        let n : is_applied m.version (rows_of db) ≡ false =
          rw h.rows ((todo-Pending done (m ∷ todo) a).0) in
        let i : insert_row m (rows_of db) ≡ some rows = ground arith in
        (
          record { schema = t; applied = some rows },
          ground arith,
          At-snoc run init db done m t rows h e i,
        )

    quiet-loop :
        (applied : List Row) (done todo : List Migration) (db : Db S)
        → Pending applied todo
        → IsAscending (done ++ todo)
        → At run init done db
        → All (λ m. m.version < 2 ^ 31) todo
        → run_all run init (done ++ todo) ≡ some final
        → (migrate_loop run (λ v. quiet_tx) applied db todo).error ≡ none
    unfolding migrate_loop run_all
    quiet-loop applied done [] db p a h v e = refl
    quiet-loop applied done (m ∷ todo) db (p, ps) a h (v, vs) e =
        elim (Option-cases (run m.sql db.schema)) [
          | inl f ↦ let k = run_all-append init db.schema done (m ∷ todo) h.schema in ground arith
          | inr (t, f) ↦
              let (db', k, h') = quiet_commits done todo m db t a h v f in
              ap (λ (o : Outcome S). o.error)
                (loop_goes_on run (λ v. quiet_tx) applied db m todo db' p k)
              ∙ quiet-loop applied (done ++ (m ∷ [])) todo db' ps
                  (subst IsAscending (sym (append_assoc done (m ∷ []) todo)) a) h' vs
                  (ap (run_all run init) (append_assoc done (m ∷ []) todo) ∙ e)
        ]

    quiet-migrate :
        (done todo : List Migration) (db : Db S)
        → IsAscending (done ++ todo)
        → At run init done db
        → All (λ m. m.version < 2 ^ 31) todo
        → run_all run init (done ++ todo) ≡ some final
        → (migrate run quiet db (done ++ todo)).error ≡ none
    unfolding migrate
    quiet-migrate done todo db a h v e =
        let k =
          created-loop run quiet init done todo (create_table db)
            (create_table-At run init done db h) refl in
        ap (λ (o : Outcome S). o.error) k
        ∙ quiet-loop (map row_of done) done todo (create_table db) (todo-Pending done todo a) a
            (create_table-At run init done db h) v e

    quiet-Within :
        (ms : List Migration) (db : Db S)
        → IsAscending ms
        → Within init ms db
        → All (λ m. m.version < 2 ^ 31) ms
        → run_all run init ms ≡ some final
        → (migrate run quiet db ms).error ≡ none
    quiet-Within ms db a w v e =
        let s : All (λ m. m.version < 2 ^ 31) (w.done ++ w.todo) =
          subst (All (λ m. m.version < 2 ^ 31)) w.split v in
        ap (λ x. (migrate run quiet db x).error) w.split
        ∙ quiet-migrate w.done w.todo db (subst IsAscending w.split a) w.at (All-right w.done s)
            (ap (run_all run init) (sym w.split) ∙ e)
      where
        All-right :
            (xs : List Migration)
            → All (λ m. m.version < 2 ^ 31) (xs ++ w.todo)
            → All (λ m. m.version < 2 ^ 31) w.todo
        All-right [] h = h
        All-right (x ∷ xs) h = All-right xs h.1

    -- Where a run has no error, the database has come through the whole list.
    finished-At :
        (f : Faults) (ms : List Migration) (db : Db S)
        → IsAscending ms
        → Within init ms db
        → (migrate run f db ms).error ≡ none
        → At run init ms (migrate run f db ms).db
    finished-At f ms db a w e =
        let h : Advanced run init w.done w.todo (migrate run f db (w.done ++ w.todo)) =
          migrate-Advanced run f init w.done w.todo db (subst IsAscending w.split a) w.at in
        let n : h.rest ≡ [] = h.finished (ap (λ x. (migrate run f db x).error) (sym w.split) ∙ e) in
        let s : w.done ++ h.more ≡ ms =
          ap (λ x. w.done ++ x) (sym (h.split ∙ ap (λ x. h.more ++ x) n ∙ append-nil h.more))
          ∙ sym w.split in
        subst (λ x. At run init x (migrate run f db ms).db) s
          (subst (λ x. At run init (w.done ++ h.more) (migrate run f db x).db) (sym w.split) h.at)

    -- However many runs fail in whatever way, one that meets no fault ends without an error and with
    -- the schema that the migrations make of the first one, all of them in the table: where the list
    -- is ascending, the database has come some way through it, each text runs on what the ones
    -- before it made, and each version is a Postgres INTEGER.
    pub migrate_converges :
        (fs : List Faults) (ms : List Migration) (db : Db S)
        → IsAscending ms
        → Within init ms db
        → All (λ m. m.version < 2 ^ 31) ms
        → run_all run init ms ≡ some final
        → (let o : Outcome S = migrate run quiet (runs fs db ms) ms in
            (o.error ≡ none) × (o.db.schema ≡ final) × (rows_of o.db ≡ map row_of ms))
    migrate_converges fs ms db a w v e =
        let x = runs-Within fs init ms db a w in
        let n = quiet-Within ms (runs fs db ms) a x v e in
        let h = finished-At quiet ms (runs fs db ms) a x n in let s = h.schema in (n, cc, h.rows)
