-- ===== src/Custody/Overlap/Ordered.antt =====
-- internal/store/migrations/0003_commitments.sql: what the trigger and the unique constraint still
-- promise when inserts overlap.
use tallybook.Prelude.{
  ◌≡◌, refl, sym, ap, subst, true, false, none, List, [], ◌∷◌, ◌++◌, All, All-imp, arith,
}
use tallybook.Prelude.Bytes.{Bytes}
use tallybook.Prelude.Int.{ℤ}
use tallybook.Custody.Table.{Row, rejects_regression, find_row, fits_numeric, passes_checks}
use tallybook.Custody.Table.Max.{AtMost, Below, AtMost-of_rejects_regression, Below-of_find_row}
use tallybook.Custody.Table.Valid.{IsRow}
use tallybook.Custody.Overlap.{
  Entry, State, rows_of, passes_trigger, Step, starts, refused, commits, gives_up, Reach, here,
  step,
}

-- The rows that an insert's trigger read are the oldest of the table's.
abbrev pub Saw : List Entry → Entry → Type 0
Saw table e = (newer : List Row) × (rows_of table ≡ newer ++ e.snapshot)

-- A committed insert, over the entries that were committed before it: the table takes its row, the
-- row is above all rows of its channel that its trigger read, and no earlier row has its channel and
-- its amount.
pub record IsOrdered (older : List Entry) (e : Entry) : Type 0 where
  pub is_row : IsRow e.row
  pub saw : Saw older e
  pub below : Below e.row.channel e.row.cumulative_amount e.snapshot
  pub alone : find_row e.row.channel e.row.cumulative_amount (rows_of older) ≡ none

abbrev pub IsHistory : List Entry → Type 0
IsHistory [] = Unit
IsHistory (e ∷ older) = IsOrdered older e × IsHistory older

-- An insert under way.
record IsPending (table : List Entry) (e : Entry) : Type 0 where
  is_row : IsRow e.row
  saw : Saw table e
  at_most : AtMost e.row.channel e.row.cumulative_amount e.snapshot

record IsSound (s : State) : Type 0 where
  history : IsHistory s.table
  pending : All (IsPending s.table) s.open_inserts

find_row-append :
    (channel : Bytes) (a : ℤ) (xs ys : List Row)
    → find_row channel a (xs ++ ys) ≡ none
    → find_row channel a ys ≡ none
unfolding find_row
find_row-append channel a [] ys h = h
find_row-append channel a (x ∷ xs) ys h = find_row-append channel a xs ys (ground arith)

passes_trigger-IsPending :
    (table : List Entry) (r : Row)
    → passes_trigger (rows_of table) r ≡ true
    → IsPending table (record { row = r; snapshot = rows_of table })
unfolding passes_trigger fits_numeric passes_checks
passes_trigger-IsPending table r h =
    let reject : rejects_regression r.channel r.cumulative_amount (rows_of table) ≡ false =
      ground arith in
    record {
      is_row = record { positive = ground arith; fits = ground arith; key_length = ground arith };
      saw = ([], refl);
      at_most = AtMost-of_rejects_regression r.channel r.cumulative_amount (rows_of table) reject;
    }

IsPending-commit : (table : List Entry) (e f : Entry) → IsPending table f → IsPending (e ∷ table) f
IsPending-commit table e f h = record {
  is_row = h.is_row;
  saw = (e.row ∷ h.saw.0, ap (λ rows. e.row ∷ rows) h.saw.1);
  at_most = h.at_most;
}

IsPending-IsOrdered :
    (table : List Entry) (e : Entry)
    → IsPending table e
    → find_row e.row.channel e.row.cumulative_amount (rows_of table) ≡ none
    → IsOrdered table e
IsPending-IsOrdered table e h n =
    let m : find_row e.row.channel e.row.cumulative_amount (h.saw.0 ++ e.snapshot) ≡ none =
      subst (λ rows. find_row e.row.channel e.row.cumulative_amount rows ≡ none) h.saw.1 n in
    record {
      is_row = h.is_row;
      saw = h.saw;
      below =
          Below-of_find_row e.row.channel e.row.cumulative_amount e.snapshot h.at_most
            (find_row-append e.row.channel e.row.cumulative_amount h.saw.0 e.snapshot m);
      alone = n;
    }

module _ (P : Entry → Type 0) where
  All-middle :
      (before : List Entry) (e : Entry) (after : List Entry) → All P (before ++ (e ∷ after)) → P e
  All-middle [] e after h = h.0
  All-middle (x ∷ before) e after h = All-middle before e after h.1

  All-rest :
      (before : List Entry) (e : Entry) (after : List Entry)
      → All P (before ++ (e ∷ after))
      → All P (before ++ after)
  All-rest [] e after h = h.1
  All-rest (x ∷ before) e after h = (h.0, All-rest before e after h.1)

Step-IsSound : (s t : State) → IsSound s → Step s t → IsSound t
Step-IsSound s t h (starts r i p e) =
    subst IsSound (sym e)
      (record { history = h.history; pending = (passes_trigger-IsPending s.table r p, h.pending) })
Step-IsSound s t h (refused r p e) =
    subst IsSound (sym e) (record { history = h.history; pending = h.pending })
Step-IsSound s t h (commits before x after o n e) =
    let pending : All (IsPending s.table) (before ++ (x ∷ after)) =
      subst (λ xs. All (IsPending s.table) xs) o h.pending in
    subst IsSound (sym e) (record {
      history = (
        IsPending-IsOrdered s.table x (All-middle (IsPending s.table) before x after pending) n,
        h.history,
      );
      pending =
          All-imp (IsPending s.table) (IsPending (x ∷ s.table)) (before ++ after)
            (IsPending-commit s.table x) (All-rest (IsPending s.table) before x after pending);
    })
Step-IsSound s t h (gives_up before x after o e) =
    let pending : All (IsPending s.table) (before ++ (x ∷ after)) =
      subst (λ xs. All (IsPending s.table) xs) o h.pending in
    subst IsSound (sym e) (record {
      history = h.history;
      pending = All-rest (IsPending s.table) before x after pending;
    })

Reach-IsSound : {s : State} → Reach s → IsSound s
Reach-IsSound here = record { history = tt; pending = tt }
Reach-IsSound (step {s} {t} r k) = Step-IsSound s t (Reach-IsSound r) k

-- Inserts may start and end in any order. Each row of a table that they lead to is one that the
-- constraints allow, is above every row of its channel that was committed before its insert started,
-- and shares its channel and amount with no row that was committed before it.
pub Reach-IsHistory : {s : State} → Reach s → IsHistory s.table
Reach-IsHistory r = (Reach-IsSound r).history
