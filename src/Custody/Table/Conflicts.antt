-- ===== src/Custody/Table/Conflicts.antt =====
-- internal/store/migrations/0003_commitments.sql: which inserts meet the unique constraint, and
-- which the trigger.
use tallybook.Prelude.{
  ℕ, zero, suc, get_elem?, ◌≡◌, ◌^◌, subst, Bool, true, false, Option, some, List, [], ◌∷◌, length,
  All, arith, Bool-cases, inl, inr, ◌&&◌,
}
use tallybook.Prelude.Bytes.{Bytes, bytes_eq}
use tallybook.Prelude.Int.{ℤ, pos, ◌≤ℤ◌, ◌<ℤ◌}
use tallybook.Custody.Table.{
  Row, Db, conflict, monotonic_violation, insert, find_row, rejects_regression, fits_numeric,
  passes_checks, eq_ℤ, check_row, conflict_or_insert,
}
use tallybook.Custody.Table.Max.{AtMost, AtMost-of_rejects_regression, rejects_regression_of_AtMost}
use tallybook.Custody.Table.Valid.{IsTable, IsRow, skip}

find_row-All :
    (P : Row → Type 0) (channel : Bytes) (a : ℤ) (rows : List Row) (q : Row)
    → All P rows
    → find_row channel a rows ≡ some q
    → P q
unfolding find_row
find_row-All P channel a [] q h e = cc
find_row-All P channel a (r ∷ rows) q h e =
    elim (Bool-cases (bytes_eq r.channel channel && eq_ℤ r.cumulative_amount a)) [
      | inl t ↦ let f : r ≡ q = ground arith in subst P f h.0
      | inr t ↦ find_row-All P channel a rows q h.1 (ground arith)
    ]

find_row-eq :
    (channel : Bytes) (a : ℤ) (rows : List Row) (q : Row)
    → find_row channel a rows ≡ some q
    → eq_ℤ q.cumulative_amount a ≡ true
unfolding find_row
find_row-eq channel a [] q e = cc
find_row-eq channel a (r ∷ rows) q e =
    elim (Bool-cases (bytes_eq r.channel channel && eq_ℤ r.cumulative_amount a)) [
      | inl t ↦
          let f : r ≡ q = ground arith in
          let g : eq_ℤ r.cumulative_amount a ≡ true = ground arith in
          subst (λ x. eq_ℤ x.cumulative_amount a ≡ true) f g
      | inr t ↦ find_row-eq channel a rows q (ground arith)
    ]

-- The amount of a row of the table is in range.
fits_of_find_row :
    (channel : Bytes) (a : ℤ) (rows : List Row) (q : Row)
    → All IsRow rows
    → find_row channel a rows ≡ some q
    → (pos 1 ≤ℤ a) × (fits_numeric a ≡ true)
unfolding fits_numeric
fits_of_find_row channel a rows q h e =
    let r : IsRow q = find_row-All IsRow channel a rows q h e in
    let eq : eq_ℤ q.cumulative_amount a ≡ true = find_row-eq channel a rows q e in
    let p : pos 1 ≤ℤ q.cumulative_amount = r.positive in
    let f : q.cumulative_amount <ℤ pos (10 ^ 39) = r.fits in (ground arith, ground arith)

pub conflict_of_find_row :
    (db : Db) (now : ℕ) (channel : Bytes) (a : ℤ) (sig : Bytes) (key : Bytes) (v : Bool) (q : Row)
    → IsTable db
    → length key ≡ 32
    → AtMost channel a db.rows
    → find_row channel a db.rows ≡ some q
    → insert db now channel a (some sig) key v ≡ (skip db, conflict)
unfolding insert check_row conflict_or_insert passes_checks
conflict_of_find_row db now channel a sig key v q h l m e =
    let (p, f) : (pos 1 ≤ℤ a) × (fits_numeric a ≡ true) =
      fits_of_find_row channel a db.rows q h.each e in
    let r : rejects_regression channel a db.rows ≡ false =
      rejects_regression_of_AtMost channel a db.rows m in
    ground arith

All-get_elem? :
    (P : Row → Type 0) (rows : List Row) (i : ℕ) (q : Row)
    → All P rows
    → get_elem? rows i ≡ some q
    → P q
All-get_elem? P [] i q h e = cc
All-get_elem? P (r ∷ rows) zero q h e = let f : r ≡ q = cc in subst P f h.0
All-get_elem? P (r ∷ rows) (suc i) q h e = All-get_elem? P rows i q h.1 e

pub rejects_of_higher :
    (channel : Bytes) (a : ℤ) (rows : List Row) (i : ℕ) (q : Row)
    → get_elem? rows i ≡ some q
    → bytes_eq q.channel channel ≡ true
    → a <ℤ q.cumulative_amount
    → rejects_regression channel a rows ≡ true
rejects_of_higher channel a rows i q e c l = elim (Bool-cases (rejects_regression channel a rows)) [
  | inl r ↦ r
  | inr r ↦
      let k : q.cumulative_amount ≤ℤ a =
        All-get_elem? (λ x. bytes_eq x.channel channel ≡ true → x.cumulative_amount ≤ℤ a) rows i q
          (AtMost-of_rejects_regression channel a rows r) e c in
      ground arith
]

pub regression_of_higher :
    (db : Db) (now : ℕ) (channel : Bytes) (a : ℤ) (signature : Option Bytes) (key : Bytes)
    (v : Bool)
    → a <ℤ pos (10 ^ 39)
    → pos 1 ≤ℤ a
    → rejects_regression channel a db.rows ≡ true
    → insert db now channel a signature key v ≡ (skip db, monotonic_violation)
unfolding insert fits_numeric
regression_of_higher db now channel a signature key v f p r = ground arith
