-- ===== src/Store/Migrate/Converges.antt =====
-- internal/store/migrate.go: `Migrate` as a whole, once and after any number of failed runs.
use tallybook.Prelude.{
  ◌≡◌, refl, sym, ap, ◌∙◌, subst, false, Option, some, List, [], ◌++◌, map, arith, Bool-cases, inl,
  inr,
}
use tallybook.Prelude.Bytes.{Bytes}
use tallybook.Store.Files.{Migration}
use tallybook.Store.Files.Sort.{IsAscending}
use tallybook.Store.Migrate.{
  Link, works, breaks_before, breaks_after, Faults, Db, rows_of, create_table, migrate_loop,
  migrate_created, migrate, create_table_failed, query_failed,
}
use tallybook.Store.Migrate.Progress.{row_of, At}
use tallybook.Store.Migrate.Advances.{
  Skipped, done-Skipped, todo-Pending, Advanced, still, skip_done, loop-Advanced,
}

module _ {S : Type 0} (run : Bytes → S → Option S) where
  pub create_table-At :
      (init : S) (done : List Migration) (db : Db S)
      → At run init done db
      → At run init done (create_table db)
  unfolding create_table rows_of
  create_table-At init done db h = record { rows = h.rows; schema = h.schema }

  module _ (f : Faults) (init : S) (done todo : List Migration) where
    -- What `migrate` does, where the migrations that are done stand in the table.
    pub created-loop :
        (db : Db S)
        → At run init done db
        → f.on_query ≡ false
        → migrate_created run f db (done ++ todo)
          ≡ migrate_loop run f.on_tx (map row_of done) db todo
    unfolding migrate_created
    created-loop db h q =
        let s : Skipped (rows_of db) done = rw h.rows (done-Skipped done) in
        let k = skip_done run f.on_tx (rows_of db) db done todo s in
        let l : migrate_created run f db (done ++ todo)
            ≡ migrate_loop run f.on_tx (rows_of db) db (done ++ todo) =
          ground arith in
        l ∙ k ∙ ap (λ x. migrate_loop run f.on_tx x db todo) h.rows

    created-Advanced :
        (db : Db S)
        → IsAscending (done ++ todo)
        → At run init done db
        → Advanced run init done todo (migrate_created run f db (done ++ todo))
    unfolding migrate_created
    created-Advanced db a h = elim (Bool-cases f.on_query) [
      | inl q ↦
          let k : migrate_created run f db (done ++ todo)
              ≡ record { db = db; newly_applied = []; error = some query_failed } =
            ground arith in
          subst (Advanced run init done todo) (sym k) (still run init done todo db query_failed h)
      | inr q ↦ subst (Advanced run init done todo) (sym (created-loop db h q)) (
          loop-Advanced run f.on_tx (map row_of done) init done todo db (todo-Pending done todo a)
            h)
    ]

    -- A run of `migrate` on an ascending list, whatever fails on the way: from a database at one
    -- point of the list, its table naming just the migrations whose texts made its schema, it leads
    -- to a database at the same or a later point. It reports the migrations it did, save one whose
    -- commit was not heard of, and without an error it has done all of them.
    pub migrate-Advanced :
        (db : Db S)
        → IsAscending (done ++ todo)
        → At run init done db
        → Advanced run init done todo (migrate run f db (done ++ todo))
    unfolding migrate
    migrate-Advanced db a h = go f.on_create refl
      where
        go :
            (l : Link)
            → f.on_create ≡ l
            → Advanced run init done todo (migrate run f db (done ++ todo))
        go works e =
            let k : migrate run f db (done ++ todo)
                ≡ migrate_created run f (create_table db) (done ++ todo) =
              ground arith in
            subst (Advanced run init done todo) (sym k)
              (created-Advanced (create_table db) a (create_table-At init done db h))
        go breaks_before e =
            let k : migrate run f db (done ++ todo)
                ≡ record { db = db; newly_applied = []; error = some create_table_failed } =
              ground arith in
            subst (Advanced run init done todo) (sym k)
              (still run init done todo db create_table_failed h)
        go breaks_after e =
            let k : migrate run f db (done ++ todo) ≡ record {
              db = create_table db;
              newly_applied = [];
              error = some create_table_failed;
            } =
              ground arith in
            subst (Advanced run init done todo) (sym k) (
              still run init done todo (create_table db) create_table_failed
                (create_table-At init done db h))
