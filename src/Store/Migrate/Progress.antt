-- ===== src/Store/Migrate/Progress.antt =====
-- internal/store/migrate.go: how far a database has come, and how far `Migrate` takes it.
use tallybook.Prelude.{
  ◌≡◌, ◌⊎◌, refl, sym, ap, ◌∙◌, subst, Option, none, some, List, [], ◌∷◌, ◌++◌, map, arith,
  Bool-cases, Option-cases, inl, inr,
}
use tallybook.Prelude.Bytes.{Bytes}
use tallybook.Store.Files.{Migration}
use tallybook.Store.Migrate.{
  Row, MigrateError, Link, works, breaks_before, breaks_after, TxFaults, insert_row, Db, rows_of,
  commit_tx, record_tx, exec_tx, apply_migration, commit_failed, begin_failed, apply_failed,
  record_failed,
}

abbrev pub row_of : Migration → Row
row_of m = record { version = m.version; name = m.name }

module _ {S : Type 0} (run : Bytes → S → Option S) where
  -- Each migration's text on what the one before it left.
  unfoldable pub run_all : S → List Migration → Option S
  run_all s [] = some s
  run_all s (m ∷ ms) = elim (run m.sql s) [ none ↦ none | some t ↦ run_all t ms ]

  -- The table names the migrations that are done, in their order, and the schema is what they make
  -- of the first one.
  pub record At (init : S) (done : List Migration) (db : Db S) : Type 0 where
    pub rows : rows_of db ≡ map row_of done
    pub schema : run_all init done ≡ some db.schema

  run_all-snoc :
      (init s : S) (done : List Migration) (m : Migration)
      → run_all init done ≡ some s
      → run_all init (done ++ (m ∷ [])) ≡ run m.sql s
  unfolding run_all
  run_all-snoc init s [] m h =
      let e : init ≡ s = cc in
      elim (Option-cases (run m.sql init)) [
        | inl f ↦ rw (sym e, f, run_all) refl
        | inr (t, f) ↦ rw (sym e, f, run_all) refl
      ]
  run_all-snoc init s (n ∷ done) m h = elim (Option-cases (run n.sql init)) [
    | inl f ↦ ground arith
    | inr (t, f) ↦
        let k : run_all t done ≡ some s = ground arith in
        rw (f, run_all) (run_all-snoc t s done m k)
  ]

  module _ (init : S) (db : Db S) (done : List Migration) (m : Migration) where
    -- The outcomes of one migration's transaction.
    pub data Applying (p : Db S × Option MigrateError) : Type 0 where
      commits : (db' : Db S) → p ≡ (db', none) → At init (done ++ (m ∷ [])) db' → Applying p
      fails : (e : MigrateError) → p ≡ (db, some e) → Applying p
      unheard :
          (db' : Db S)
          → p ≡ (db', some (commit_failed m.filename))
          → At init (done ++ (m ∷ [])) db'
          → Applying p

    insert_row-eq :
        (rows : List Row)
        → insert_row m (rows_of db) ≡ some rows
        → rows ≡ rows_of db ++ (row_of m ∷ [])
    unfolding insert_row
    insert_row-eq rows h = ground arith

    map-snoc :
        (ms : List Migration) → map row_of (ms ++ (m ∷ [])) ≡ map row_of ms ++ (row_of m ∷ [])
    map-snoc [] = refl
    map-snoc (n ∷ ms) = ap (λ x. row_of n ∷ x) (map-snoc ms)

    pub At-snoc :
        (s : S) (rows : List Row)
        → At init done db
        → run m.sql db.schema ≡ some s
        → insert_row m (rows_of db) ≡ some rows
        → At init (done ++ (m ∷ [])) (record { schema = s; applied = some rows })
    unfolding rows_of
    At-snoc s rows h e i = record {
      rows = insert_row-eq rows i ∙ ap (λ x. x ++ (row_of m ∷ [])) h.rows ∙ sym (map-snoc done);
      schema = run_all-snoc init db.schema done m h.schema ∙ e;
    }

    record_tx-Applying :
        (f : TxFaults) (s : S)
        → At init done db
        → run m.sql db.schema ≡ some s
        → Applying (record_tx run f db m s (insert_row m (rows_of db)))
    unfolding record_tx commit_tx
    record_tx-Applying f s h e = elim (Option-cases (insert_row m (rows_of db))) [
      | inl i ↦ fails (record_failed m.filename) (ground arith)
      | inr (rows, i) ↦
          let db' : Db S = record { schema = s; applied = some rows } in
          let a = At-snoc s rows h e i in
          elim (Bool-cases f.on_record) [
            | inl b ↦ fails (record_failed m.filename) (ground arith)
            | inr b ↦ elim (Link-cases f.on_commit) [
              | inl l ↦ commits db' (ground arith) a
              | inr (inl l) ↦ fails (commit_failed m.filename) (ground arith)
              | inr (inr l) ↦ unheard db' (ground arith) a
            ]
          ]
    ]
      where
        Link-cases : (l : Link) → (l ≡ works) ⊎ ((l ≡ breaks_before) ⊎ (l ≡ breaks_after))
        Link-cases works = inl refl
        Link-cases breaks_before = inr (inl refl)
        Link-cases breaks_after = inr (inr refl)

    pub apply_migration-Applying :
        (f : TxFaults) → At init done db → Applying (apply_migration run f db m)
    unfolding apply_migration exec_tx
    apply_migration-Applying f h = elim (Bool-cases f.on_begin) [
      | inl b ↦ fails (begin_failed m.filename) (ground arith)
      | inr b ↦ elim (Option-cases (run m.sql db.schema)) [
        | inl e ↦ fails (apply_failed m.filename) (ground arith)
        | inr (s, e) ↦ elim (Bool-cases f.on_exec) [
          | inl c ↦ fails (apply_failed m.filename) (ground arith)
          | inr c ↦
              let k : record_tx run f db m s (insert_row m (rows_of db))
                  ≡ apply_migration run f db m =
                ground arith in
              subst Applying k (record_tx-Applying f s h e)
        ]
      ]
    ]
