-- ===== src/Store/Files/Sort.antt =====
-- internal/store/migrate.go: the sort by version keeps the files and puts them in order.
use mathlib.Core.List.{Perm}
use mathlib.Core.List.Perm
use native.Mathlib.Nat.{lt_trans}
use tallybook.Prelude.{
  ◌<◌, ◌≢◌, arith, List, [], ◌∷◌, map, All, All-imp, Bool-cases, inl, inr, ltb, ltb→lt,
}
use tallybook.Prelude.Bytes.{Bytes}
use tallybook.Store.Files.{Migration, insert_migration, sort_migrations}

abbrev pub IsAscending : List Migration → Type 0
IsAscending [] = Unit
IsAscending (m ∷ ms) = All (λ n. m.version < n.version) ms × IsAscending ms

abbrev pub IsDistinct : List Migration → Type 0
IsDistinct [] = Unit
IsDistinct (m ∷ ms) = All (λ n. n.version ≢ m.version) ms × IsDistinct ms

abbrev pub filenames : List Migration → List Bytes
filenames ms = map (λ (m : Migration). m.filename) ms

module _ (P : Migration → Type 0) where
  All-insert_migration :
      (m : Migration) (ms : List Migration) → P m → All P ms → All P (insert_migration m ms)
  unfolding insert_migration
  All-insert_migration m [] p h = (p, tt)
  All-insert_migration m (n ∷ ms) p h = ground (arith, All-insert_migration m ms p)

  pub All-sort_migrations : (ms : List Migration) → All P ms → All P (sort_migrations ms)
  unfolding sort_migrations
  All-sort_migrations [] h = tt
  All-sort_migrations (m ∷ ms) h =
      All-insert_migration m (sort_migrations ms) h.0 (All-sort_migrations ms h.1)

insert_migration-Perm :
    (m : Migration) (ms : List Migration)
    → Perm (filenames (insert_migration m ms)) (m.filename ∷ filenames ms)
unfolding insert_migration
insert_migration-Perm m [] = Perm.refl (m.filename ∷ [])
insert_migration-Perm m (n ∷ ms) = elim (Bool-cases (ltb m.version n.version)) [
  | inl e ↦ rw (e, insert_migration) (Perm.refl (m.filename ∷ n.filename ∷ filenames ms))
  | inr e ↦
      rw (e, insert_migration)
        (Perm.trans (Perm.cons n.filename (insert_migration-Perm m ms))
          (Perm.swap m.filename n.filename (filenames ms)))
]

pub sort_migrations-Perm :
    (ms : List Migration) → Perm (filenames (sort_migrations ms)) (filenames ms)
unfolding sort_migrations
sort_migrations-Perm [] = Perm.refl []
sort_migrations-Perm (m ∷ ms) =
    Perm.trans (insert_migration-Perm m (sort_migrations ms))
      (Perm.cons m.filename (sort_migrations-Perm ms))

insert_migration-IsAscending :
    (m : Migration) (ms : List Migration)
    → All (λ n. n.version ≢ m.version) ms
    → IsAscending ms
    → IsAscending (insert_migration m ms)
unfolding insert_migration
insert_migration-IsAscending m [] d h = (tt, tt)
insert_migration-IsAscending m (n ∷ ms) (d, ds) (a, h) =
    elim (Bool-cases (ltb m.version n.version)) [
      | inl e ↦
          rw (e, insert_migration)
            ((ltb→lt _ _ e, All-imp _ _ ms (λ x q. lt_trans (ltb→lt _ _ e) q) a), (a, h))
      | inr e ↦
          let l : n.version < m.version = ground arith in
          rw (e, insert_migration)
            (
              All-insert_migration (λ x. n.version < x.version) m ms l a,
              insert_migration-IsAscending m ms ds h,
            )
    ]

-- Files of different versions come out in ascending order.
pub sort_migrations-IsAscending :
    (ms : List Migration) → IsDistinct ms → IsAscending (sort_migrations ms)
unfolding sort_migrations
sort_migrations-IsAscending [] h = tt
sort_migrations-IsAscending (m ∷ ms) (d, h) =
    insert_migration-IsAscending m (sort_migrations ms) (All-sort_migrations _ ms d)
      (sort_migrations-IsAscending ms h)
