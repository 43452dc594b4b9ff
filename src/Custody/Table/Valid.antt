-- ===== src/Custody/Table/Valid.antt =====
-- internal/store/migrations/0003_commitments.sql: what holds of the table after every insert.
use tallybook.Prelude.{
  ℕ, ◌+◌, ◌^◌, ◌<◌, ◌≡◌, ◌⊎◌, refl, Bool, true, false, Option, none, some, List, [], ◌∷◌, length,
  All, arith, Option-cases, Bool-cases, inl, inr,
}
use tallybook.Prelude.Bytes.{Bytes}
use tallybook.Prelude.Int.{ℤ, pos, ◌≤ℤ◌, ◌<ℤ◌}
use tallybook.Custody.Table.{
  Row, Db, InsertResult, inserted, conflict, monotonic_violation, not_null_violation,
  check_violation, numeric_out_of_range, insert, rejects_regression, find_row, fits_numeric,
  passes_checks, conflict_or_insert, check_row,
}
use tallybook.Custody.Table.Max.{Below, AtMost-of_rejects_regression, Below-of_find_row}

pub record IsRow (r : Row) : Type 0 where
  pub positive : pos 1 ≤ℤ r.cumulative_amount
  pub fits : r.cumulative_amount <ℤ pos (10 ^ 39)
  pub key_length : length r.signer_key ≡ 32

-- Each row has a larger id than the older ones, and a larger amount than those of its channel.
abbrev pub Rising : List Row → Type 0
Rising [] = Unit
Rising (r ∷ rows) =
    All (λ q. q.id < r.id) rows × Below r.channel r.cumulative_amount rows × Rising rows

pub record IsTable (db : Db) : Type 0 where
  pub each : All IsRow db.rows
  pub rising : Rising db.rows
  pub fresh : All (λ q. q.id < db.next_id) db.rows

-- What an insert does: it takes an id in any case; it adds the row, which is then above the
-- channel's others, or leaves the rows alone.
pub record Inserts (db db' : Db) (row : Row) : Type 0 where
  pub rows : db'.rows ≡ row ∷ db.rows
  pub next_id : db'.next_id ≡ db.next_id + 1
  pub id : row.id ≡ db.next_id
  pub is_row : IsRow row
  pub below : Below row.channel row.cumulative_amount db.rows

weaken_ids :
    (m n : ℕ) (rows : List Row) → n ≡ m + 1 → All (λ q. q.id < m) rows → All (λ q. q.id < n) rows
weaken_ids m n [] e h = tt
weaken_ids m n (q ∷ rows) e h = (omega (arith, h.0), weaken_ids m n rows e h.1)

Inserts-IsTable : (db db' : Db) (row : Row) → IsTable db → Inserts db db' row → IsTable db'
Inserts-IsTable db db' row h k =
    let l : row.id < db'.next_id = rw (k.id, k.next_id) (omega arith) in
    record {
      each = rw k.rows ((k.is_row, h.each));
      rising = rw k.rows ((rw k.id h.fresh, k.below, h.rising));
      fresh = rw k.rows ((l, weaken_ids db.next_id db'.next_id db.rows k.next_id h.fresh));
    }

-- The database with one more id taken, and with a row added as well.
abbrev pub skip : Db → Db
skip db = record db { next_id = db.next_id + 1 }

abbrev pub push : Row → Db → Db
push row db = record { rows = row ∷ db.rows; next_id = db.next_id + 1 }

skip-IsTable : (db : Db) → IsTable db → IsTable (skip db)
skip-IsTable db h = record {
  each = h.each;
  rising = h.rising;
  fresh = weaken_ids db.next_id (db.next_id + 1) db.rows refl h.fresh;
}

-- The row that an insert would add.
abbrev pub row_of : Db → ℕ → Bytes → ℤ → Bytes → Bytes → Bool → Row
row_of db now channel amount signature signer_key valid = record {
  id = db.next_id;
  channel = channel;
  cumulative_amount = amount;
  signature = signature;
  signer_key = signer_key;
  verified_at = now;
  valid = valid;
}

module _ (db : Db) (now : ℕ) (channel : Bytes) (amount : ℤ) (key : Bytes) (valid : Bool) where
  -- The outcomes of an insert, each with the reason for it.
  pub data Inserting (signature : Option Bytes) (p : Db × InsertResult) : Type 0 where
    adds :
        (sig : Bytes)
        → signature ≡ some sig
        → (let row : Row = row_of db now channel amount sig key valid in
            (p ≡ (push row db, inserted row)) × Inserts db (push row db) row)
        → Inserting signature p
    finds :
        (q : Row)
        → p ≡ (skip db, conflict)
        → find_row channel amount db.rows ≡ some q
        → Inserting signature p
    regresses :
        p ≡ (skip db, monotonic_violation)
        → rejects_regression channel amount db.rows ≡ true
        → Inserting signature p
    refuses :
        (r : InsertResult)
        → p ≡ (skip db, r)
        → (r ≡ not_null_violation) ⊎ ((r ≡ check_violation) ⊎ (r ≡ numeric_out_of_range))
        → Inserting signature p

  row_of-IsRow :
      (sig : Bytes)
      → fits_numeric amount ≡ true
      → passes_checks amount key ≡ true
      → IsRow (row_of db now channel amount sig key valid)
  unfolding fits_numeric passes_checks
  row_of-IsRow sig f c = record {
    positive = ground arith;
    fits = ground arith;
    key_length = ground arith;
  }

  checked :
      (sig : Bytes)
      → fits_numeric amount ≡ true
      → rejects_regression channel amount db.rows ≡ false
      → Inserting (some sig) (check_row (skip db) (row_of db now channel amount sig key valid))
  unfolding check_row conflict_or_insert
  checked sig f r = elim (Bool-cases (passes_checks amount key)) [
    | inr c ↦ refuses check_violation (ground arith) (inr (inl refl))
    | inl c ↦ elim (Option-cases (find_row channel amount db.rows)) [
      | inr (q, e) ↦ finds q (ground arith) e
      | inl n ↦ adds sig refl (
        ground arith,
        record {
          rows = refl;
          next_id = refl;
          id = refl;
          is_row = row_of-IsRow sig f c;
          below =
              Below-of_find_row channel amount db.rows
                (AtMost-of_rejects_regression channel amount db.rows r) n;
        },
      )
    ]
  ]

  let_through :
      (signature : Option Bytes)
      → fits_numeric amount ≡ true
      → rejects_regression channel amount db.rows ≡ false
      → Inserting signature (insert db now channel amount signature key valid)
  unfolding insert
  let_through none f r = refuses not_null_violation (ground arith) (inl refl)
  let_through (some sig) f r = rw (f, r, insert) (checked sig f r)

  pub insert-cases :
      (signature : Option Bytes)
      → Inserting signature (insert db now channel amount signature key valid)
  unfolding insert
  insert-cases signature = elim (Bool-cases (fits_numeric amount)) [
    | inr f ↦ refuses numeric_out_of_range (ground arith) (inr (inr refl))
    | inl f ↦ elim (Bool-cases (rejects_regression channel amount db.rows)) [
      | inl r ↦ regresses (ground arith) r
      | inr r ↦ let_through signature f r
    ]
  ]

  Inserting-IsTable :
      (signature : Option Bytes) (p : Db × InsertResult)
      → IsTable db
      → Inserting signature p
      → IsTable p.0
  Inserting-IsTable signature p h (adds sig e (f, k)) = rw f (
      Inserts-IsTable db (push (row_of db now channel amount sig key valid) db)
        (row_of db now channel amount sig key valid) h k)
  Inserting-IsTable signature p h (finds q f e) = rw f (skip-IsTable db h)
  Inserting-IsTable signature p h (regresses f e) = rw f (skip-IsTable db h)
  Inserting-IsTable signature p h (refuses r f e) = rw f (skip-IsTable db h)

  -- Every insert, whatever it is given and however it ends, keeps the table in order.
  pub insert-IsTable :
      (signature : Option Bytes)
      → IsTable db
      → IsTable (insert db now channel amount signature key valid).0
  insert-IsTable signature h =
      Inserting-IsTable signature (insert db now channel amount signature key valid) h
        (insert-cases signature)
