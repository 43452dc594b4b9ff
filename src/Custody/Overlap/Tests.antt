-- ===== src/Custody/Overlap/Tests.antt =====
-- Two inserts into the same channel that overlap, and the theorem at them.
use tallybook.Prelude.{ℕ, ◌≡◌, refl, true, none, [], ◌∷◌, replicate}
use tallybook.Prelude.Bytes.{Bytes, ascii, bytes_eq}
use tallybook.Prelude.Int.{pos}
use tallybook.Custody.Table.{
  Row, rejects_regression, find_row, fits_numeric, passes_checks, current_max,
}
use tallybook.Custody.Overlap.{
  Entry, State, rows_of, passes_trigger, started, ended, starts, commits, empty_state, Reach, here,
  step,
}
use tallybook.Custody.Overlap.Ordered.{IsHistory, Reach-IsHistory}

abbrev channel : Bytes
channel = ascii "C1"

abbrev row : ℕ → ℕ → Row
row id n = record {
  id = id;
  channel = channel;
  cumulative_amount = pos n;
  signature = n ∷ [];
  signer_key = replicate 32 5;
  verified_at = 70;
  valid = true;
}

-- Both inserts start over the empty table; the one of 120 is committed first, then the one of 95.
abbrev high : Entry
high = record { row = row 1 120; snapshot = [] }

abbrev low : Entry
low = record { row = row 2 95; snapshot = [] }

abbrev both_started : State
both_started = started (started empty_state (row 1 120)) (row 2 95)

abbrev high_committed : State
high_committed = ended (high ∷ []) (low ∷ []) [] both_started

abbrev low_committed : State
low_committed = ended (low ∷ high ∷ []) [] [] high_committed

low_passes : passes_trigger [] (row 2 95) ≡ true
unfolding passes_trigger fits_numeric rejects_regression current_max passes_checks
low_passes = refl

high_passes : passes_trigger [] (row 1 120) ≡ true
unfolding passes_trigger fits_numeric rejects_regression current_max passes_checks
high_passes = refl

low_alone : find_row channel (pos 95) (row 1 120 ∷ []) ≡ none
unfolding find_row bytes_eq
low_alone = refl

high_alone : find_row channel (pos 120) [] ≡ none
unfolding find_row
high_alone = refl

low_committed-Reach : Reach low_committed
low_committed-Reach =
    step
      (step
        (step (step here (starts (row 1 120) refl high_passes refl))
          (starts (row 2 95) refl low_passes refl))
        (commits (low ∷ []) high [] refl high_alone refl))
      (commits [] low [] refl low_alone refl)

-- The row of 95 stands in the table although the trigger refuses it over the rows before it.
low_regresses : rejects_regression channel (pos 95) (rows_of (high ∷ [])) ≡ true
unfolding rejects_regression current_max bytes_eq
low_regresses = refl

Reach-IsHistory_example : IsHistory (low ∷ high ∷ [])
Reach-IsHistory_example = Reach-IsHistory low_committed-Reach
