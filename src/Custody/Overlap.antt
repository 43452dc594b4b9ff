-- ===== src/Custody/Overlap.antt =====
-- internal/store/migrations/0003_commitments.sql: inserts that overlap. Each INSERT is a transaction
-- of its own, at the isolation level READ COMMITTED: its trigger reads the rows that are committed
-- when it starts, and the unique constraint is checked against those that are committed when it
-- ends. In between, others may start and end.
pub mod Ordered
mod Tests
use tallybook.Prelude.{ℕ, ◌+◌, ◌≡◌, Bool, true, false, Option, none, some, List, [], ◌∷◌, ◌++◌, map}
use tallybook.Prelude.Bytes.{Bytes}
use tallybook.Prelude.Int.{ℤ}
use tallybook.Custody.Table.{Row, rejects_regression, find_row, fits_numeric, passes_checks}

-- A row, and the rows that its trigger read.
pub record Entry : Type 0 where
  pub row : Row
  pub snapshot : List Row

-- The rows that are committed, newest first, and the inserts that are under way.
pub record State : Type 0 where
  pub table : List Entry
  pub open_inserts : List Entry
  pub next_id : ℕ

abbrev pub rows_of : List Entry → List Row
rows_of table = map (λ (e : Entry). e.row) table

-- Whether an insert gets past its trigger and the row's own constraints.
unfoldable pub passes_trigger : List Row → Row → Bool
unfolding rejects_regression fits_numeric passes_checks
passes_trigger rows r = elim (fits_numeric r.cumulative_amount) [
  | false ↦ false
  | true ↦ elim (rejects_regression r.channel r.cumulative_amount rows) [
    | true ↦ false
    | false ↦ passes_checks r.cumulative_amount r.signer_key
  ]
]

abbrev pub started : State → Row → State
started s r = record {
  table = s.table;
  open_inserts = record { row = r; snapshot = rows_of s.table } ∷ s.open_inserts;
  next_id = s.next_id + 1;
}

-- The insert of a row ends, and takes the row along if it is to be committed.
abbrev pub ended : List Entry → List Entry → List Entry → State → State
ended table before after s = record s { table = table; open_inserts = before ++ after }

-- One step of one insert: it starts, with an id of its own; it is refused at its start; it ends with
-- its row committed; or it ends without, for a row that has been committed by then or because its
-- connection broke.
pub data Step (s t : State) : Type 0 where
  starts :
      (r : Row)
      → r.id ≡ s.next_id
      → passes_trigger (rows_of s.table) r ≡ true
      → t ≡ started s r
      → Step s t
  refused :
      (r : Row)
      → passes_trigger (rows_of s.table) r ≡ false
      → t ≡ record s { next_id = s.next_id + 1 }
      → Step s t
  commits :
      (before : List Entry) (e : Entry) (after : List Entry)
      → s.open_inserts ≡ before ++ (e ∷ after)
      → find_row e.row.channel e.row.cumulative_amount (rows_of s.table) ≡ none
      → t ≡ ended (e ∷ s.table) before after s
      → Step s t
  gives_up :
      (before : List Entry) (e : Entry) (after : List Entry)
      → s.open_inserts ≡ before ++ (e ∷ after)
      → t ≡ ended s.table before after s
      → Step s t

abbrev pub empty_state : State
empty_state = record { table = []; open_inserts = []; next_id = 1 }

-- The states that some interleaving of inserts leads to.
pub data Reach : State → Type 0 where
  here : Reach empty_state
  step : {s t : State} → Reach s → Step s t → Reach t
