-- ===== src/Store/Migrate/Advances.antt =====
-- internal/store/migrate.go: a run of `Migrate` takes a database from one point of the sequence of
-- migrations to a later one.
use tallybook.Prelude.{
  ℕ, ◌<◌, ◌≡◌, ◌⊎◌, refl, sym, ap, ◌∙◌, subst, true, false, Option, none, some, List, [], ◌∷◌, ◌++◌,
  map, append-nil, append_assoc, All, All-imp, arith, inl, inr,
}
use tallybook.Prelude.Bytes.{Bytes}
use tallybook.Store.Files.{Migration}
use tallybook.Store.Files.Sort.{IsAscending}
use tallybook.Store.Migrate.{
  Row, MigrateError, TxFaults, is_applied, Db, Outcome, apply_migration, migrate_loop,
  commit_failed,
}
use tallybook.Store.Migrate.Progress.{row_of, At, commits, fails, unheard, apply_migration-Applying}

abbrev pub Skipped : List Row → List Migration → Type 0
Skipped rows ms = All (λ m. is_applied m.version rows ≡ true) ms

abbrev pub Pending : List Row → List Migration → Type 0
Pending rows ms = All (λ m. is_applied m.version rows ≡ false) ms

is_applied-there :
    (v : ℕ) (r : Row) (rows : List Row) → is_applied v rows ≡ true → is_applied v (r ∷ rows) ≡ true
unfolding is_applied
is_applied-there v r rows h = ground arith

-- The migrations that are done are in the table.
pub done-Skipped : (done : List Migration) → Skipped (map row_of done) done
unfolding is_applied
done-Skipped [] = tt
done-Skipped (m ∷ done) = (
  ground arith,
  All-imp _ _ done (λ n h. is_applied-there n.version (row_of m) (map row_of done) h)
      (done-Skipped done),
)

is_applied-below :
    (v : ℕ) (done : List Migration)
    → All (λ m. m.version < v) done
    → is_applied v (map row_of done) ≡ false
unfolding is_applied
is_applied-below v [] h = refl
is_applied-below v (m ∷ done) (l, h) = let k = is_applied-below v done h in ground arith

-- A version behind an ascending list is above all of it.
below-ascending :
    (done : List Migration) (m : Migration) (todo : List Migration)
    → IsAscending (done ++ (m ∷ todo))
    → All (λ n. n.version < m.version) done
below-ascending [] m todo h = tt
below-ascending (n ∷ done) m todo (a, h) = (All-middle done a, below-ascending done m todo h)
  where
    All-middle :
        (xs : List Migration)
        → All (λ x. n.version < x.version) (xs ++ (m ∷ todo))
        → n.version < m.version
    All-middle [] a = a.0
    All-middle (x ∷ xs) a = All-middle xs a.1

-- The migrations behind those that are done are not in the table.
pub todo-Pending :
    (done todo : List Migration) → IsAscending (done ++ todo) → Pending (map row_of done) todo
todo-Pending done [] h = tt
todo-Pending done (m ∷ todo) h = (
  is_applied-below m.version done (below-ascending done m todo h),
  todo-Pending done todo (without done h),
)
  where
    All-without :
        (x : Migration) (xs : List Migration)
        → All (λ y. x.version < y.version) (xs ++ (m ∷ todo))
        → All (λ y. x.version < y.version) (xs ++ todo)
    All-without x [] a = a.1
    All-without x (y ∷ xs) (b, a) = (b, All-without x xs a)

    without : (xs : List Migration) → IsAscending (xs ++ (m ∷ todo)) → IsAscending (xs ++ todo)
    without [] h = h.1
    without (x ∷ xs) (a, h) = (All-without x xs a, without xs h)

module _ {S : Type 0} (run : Bytes → S → Option S) where
  -- How far a run has come: it has done the first migrations of those that were left, has reported
  -- them, except for a last one whose commit was not heard of, and has done all if it has no error.
  pub record Advanced (init : S) (done todo : List Migration) (o : Outcome S) : Type 0 where
    pub more : List Migration
    pub rest : List Migration
    pub split : todo ≡ more ++ rest
    pub at : At run init (done ++ more) o.db
    pub reported :
        (more ≡ o.newly_applied)
        ⊎ ((m : Migration) × (more ≡ o.newly_applied ++ (m ∷ []))
            × (o.error ≡ some (commit_failed m.filename)))
    pub finished : o.error ≡ none → rest ≡ []

  -- A run that did nothing and says why.
  pub still :
      (init : S) (done todo : List Migration) (db : Db S) (e : MigrateError)
      → At run init done db
      → Advanced init done todo (record { db = db; newly_applied = []; error = some e })
  still init done todo db e h = record {
    more = [];
    rest = todo;
    split = refl;
    at = rw (append-nil done) h;
    reported = inl refl;
    finished = λ k. cc;
  }

  module _ (f : ℕ → TxFaults) (applied : List Row) where
    -- The loop on its first migration, by what becomes of it.
    module _ (db : Db S) (m : Migration) (ms : List Migration) where
      pub loop_skips :
          is_applied m.version applied ≡ true
          → migrate_loop run f applied db (m ∷ ms) ≡ migrate_loop run f applied db ms
      unfolding migrate_loop
      loop_skips h = rw (h, migrate_loop) refl

      loop_stops :
          (db' : Db S) (e : MigrateError)
          → is_applied m.version applied ≡ false
          → apply_migration run (f m.version) db m ≡ (db', some e)
          → migrate_loop run f applied db (m ∷ ms)
            ≡ record { db = db'; newly_applied = []; error = some e }
      unfolding migrate_loop
      loop_stops db' e h k = ground arith

      pub loop_goes_on :
          (db' : Db S)
          → is_applied m.version applied ≡ false
          → apply_migration run (f m.version) db m ≡ (db', none)
          → (let rest : Outcome S = migrate_loop run f applied db' ms in
              migrate_loop run f applied db (m ∷ ms)
              ≡ record { db = rest.db; newly_applied = m ∷ rest.newly_applied; error = rest.error })
      unfolding migrate_loop
      loop_goes_on db' h k = ground arith

    pub skip_done :
        (db : Db S) (done todo : List Migration)
        → Skipped applied done
        → migrate_loop run f applied db (done ++ todo) ≡ migrate_loop run f applied db todo
    skip_done db [] todo h = refl
    skip_done db (m ∷ done) todo h = loop_skips db m (done ++ todo) h.0 ∙ skip_done db done todo h.1

    Advanced-unheard :
        (init : S) (done todo : List Migration) (m : Migration) (db : Db S)
        → At run init (done ++ (m ∷ [])) db
        → Advanced init done
            (m ∷ todo)
            (record { db = db; newly_applied = []; error = some (commit_failed m.filename) })
    Advanced-unheard init done todo m db h = record {
      more = m ∷ [];
      rest = todo;
      split = refl;
      at = h;
      reported = inr (m, refl, refl);
      finished = λ k. cc;
    }

    Advanced-cons :
        (init : S) (done todo : List Migration) (m : Migration) (o : Outcome S)
        → Advanced init (done ++ (m ∷ [])) todo o
        → Advanced init done
            (m ∷ todo)
            (record { db = o.db; newly_applied = m ∷ o.newly_applied; error = o.error })
    Advanced-cons init done todo m o h = record {
      more = m ∷ h.more;
      rest = h.rest;
      split = ap (λ x. m ∷ x) h.split;
      at = subst (λ ms. At run init ms o.db) (append_assoc done (m ∷ []) h.more) h.at;
      reported = elim h.reported [
        | inl e ↦ inl (ap (λ x. m ∷ x) e)
        | inr (n, e, k) ↦ inr (n, ap (λ x. m ∷ x) e, k)
      ];
      finished = h.finished;
    }

    pub loop-Advanced :
        (init : S) (done todo : List Migration) (db : Db S)
        → Pending applied todo
        → At run init done db
        → Advanced init done todo (migrate_loop run f applied db todo)
    unfolding migrate_loop
    loop-Advanced init done [] db p h = record {
      more = [];
      rest = [];
      split = refl;
      at = rw (append-nil done) h;
      reported = inl refl;
      finished = λ k. refl;
    }
    loop-Advanced init done (m ∷ todo) db (p, ps) h =
        elim (apply_migration-Applying run init db done m (f m.version) h) [
          | fails e k ↦
              subst (Advanced init done (m ∷ todo)) (sym (loop_stops db m todo db e p k))
                (still init done (m ∷ todo) db e h)
          | unheard db' k a ↦
              subst (Advanced init done (m ∷ todo))
                (sym (loop_stops db m todo db' (commit_failed m.filename) p k))
                (Advanced-unheard init done todo m db' a)
          | commits db' k a ↦
              subst (Advanced init done (m ∷ todo)) (sym (loop_goes_on db m todo db' p k)) (
                Advanced-cons init done todo m (migrate_loop run f applied db' todo)
                  (loop-Advanced init (done ++ (m ∷ [])) todo db' ps a))
        ]
