-- ===== src/Custody/Table.antt =====
-- internal/store/migrations/0003_commitments.sql: the commitments table and what an insert into it
-- does. Postgres fires the BEFORE trigger first, checks the NOT NULL and CHECK constraints of the
-- row next, and last looks for a row that the unique constraint says it conflicts with. The id is
-- taken from its sequence before any of that, and stays taken. Rows stand newest first. A channel is
-- taken to be a text that its column holds, UTF-8 without a zero byte.
pub mod Max
pub mod Valid
pub mod Conflicts
use tallybook.Prelude.{
  ℕ, ◌+◌, ◌-◌, ◌^◌, Bool, true, false, not, ◌&&◌, ◌||◌, Option, none, some, List, [], ◌∷◌, length,
  ◌==◌, if◌then◌else◌,
}
use tallybook.Prelude.Bytes.{Bytes, bytes_eq}
use tallybook.Prelude.Int.{ℤ, pos, negsuc, pos_part, neg_part, ltb_ℤ, leb_ℤ}

pub record Row : Type 0 where
  pub id : ℕ
  pub channel : Bytes
  pub cumulative_amount : ℤ
  pub signature : Bytes
  pub signer_key : Bytes
  pub verified_at : ℕ
  pub valid : Bool

pub record Db : Type 0 where
  pub rows : List Row
  pub next_id : ℕ

-- What an INSERT … ON CONFLICT DO NOTHING RETURNING … reports: the row, no row, or an error with
-- its SQLSTATE: TB001 of the trigger, 23502, 23514, or 22003.
pub data InsertResult : Type 0 where
  inserted : Row → InsertResult
  conflict : InsertResult
  monotonic_violation : InsertResult
  not_null_violation : InsertResult
  check_violation : InsertResult
  numeric_out_of_range : InsertResult

-- Equality of amounts.
abbrev pub eq_ℤ : ℤ → ℤ → Bool
eq_ℤ a b = pos_part a + neg_part b == pos_part b + neg_part a

-- `SELECT MAX(cumulative_amount) … WHERE channel = NEW.channel`, NULL over no row.
abbrev pub larger : ℤ → Option ℤ → ℤ
larger a none = a
larger a (some b) = if ltb_ℤ a b then b else a

unfoldable pub current_max : Bytes → List Row → Option ℤ
current_max channel [] = none
current_max channel (r ∷ rows) =
    if bytes_eq r.channel channel
    then some (larger r.cumulative_amount (current_max channel rows))
    else current_max channel rows

-- `commitments_reject_regression`: whether it raises.
unfoldable pub rejects_regression : Bytes → ℤ → List Row → Bool
rejects_regression channel amount rows = elim (current_max channel rows) [
  | none ↦ false
  | some m ↦ ltb_ℤ amount m
]

-- The row with a channel and an amount, by the unique constraint at most one.
unfoldable pub find_row : Bytes → ℤ → List Row → Option Row
find_row channel amount [] = none
find_row channel amount (r ∷ rows) =
    if bytes_eq r.channel channel && eq_ℤ r.cumulative_amount amount
    then some r
    else find_row channel amount rows

-- NUMERIC(39, 0)
unfoldable pub fits_numeric : ℤ → Bool
fits_numeric a = ltb_ℤ a (pos (10 ^ 39)) && ltb_ℤ (negsuc (10 ^ 39 - 1)) a

-- The CHECK constraints on the amount and the key; the third, on `valid`, holds of every row that
-- is inserted, since `verified_at` is now().
unfoldable pub passes_checks : ℤ → Bytes → Bool
passes_checks amount signer_key = ltb_ℤ (pos 0) amount && length signer_key == 32

-- The row, if the signature is not NULL.
unfoldable pub conflict_or_insert : Db → Row → Db × InsertResult
conflict_or_insert db row = elim (find_row row.channel row.cumulative_amount db.rows) [
  | some _ ↦ (db, conflict)
  | none ↦ (record db { rows = row ∷ db.rows }, inserted row)
]

unfoldable pub check_row : Db → Row → Db × InsertResult
check_row db row =
    if passes_checks row.cumulative_amount row.signer_key
    then conflict_or_insert db row
    else (db, check_violation)

unfoldable pub insert : Db → ℕ → Bytes → ℤ → Option Bytes → Bytes → Bool → Db × InsertResult
insert db now channel amount signature signer_key valid =
    let db' = record db { next_id = db.next_id + 1 } in
    if not (fits_numeric amount)
    then (db', numeric_out_of_range)
    else if rejects_regression channel amount db.rows
    then (db', monotonic_violation)
    else elim signature [
      | none ↦ (db', not_null_violation)
      | some sig ↦ check_row db' (record {
        id = db.next_id;
        channel = channel;
        cumulative_amount = amount;
        signature = sig;
        signer_key = signer_key;
        verified_at = now;
        valid = valid;
      })
    ]
