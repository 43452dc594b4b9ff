-- ===== src/Custody/Submit/Tests.antt =====
-- Submissions over a toy channel and a toy signature scheme, and the theorems at them.
use tallybook.Prelude.{
  ℕ, ◌≡◌, refl, Bool, true, false, Option, none, some, [], ◌∷◌, replicate, arith,
}
use tallybook.Prelude.Bytes.{Bytes, ascii, bytes_eq}
use tallybook.Prelude.Int.{ℤ, pos, negsuc}
use tallybook.Prelude.Result.{ok, err}
use tallybook.Custody.Verify.{non_positive_amount, verify_commitment}
use tallybook.Custody.Table.{
  Row, Db, insert, find_row, current_max, rejects_regression, fits_numeric, passes_checks,
  check_row, conflict_or_insert,
}
use tallybook.Custody.Table.Valid.{IsTable, skip}
use tallybook.Custody.Submit.{
  SubmittedCommitment, Record, Faults, works, breaks_after, submit, submit_amount, persist, answer,
  monotonic,
}
use tallybook.Custody.Submit.Durable.{Acknowledged, submit-IsTable, submit-Acknowledged}
use tallybook.Custody.Submit.Retry.{commitment_of, submit-retry, submit-behind}

-- The message of an amount is its digits as one byte, and a signature is the message itself.
abbrev prepare : ℤ → Option Bytes
prepare (pos n) = some (n ∷ [])
prepare (negsuc n) = none

abbrev signed : Bytes → Bytes → Bytes → Bool
signed key message signature = bytes_eq message signature

abbrev key : Bytes
key = replicate 32 5

abbrev channel : Bytes
channel = ascii "C1"

abbrev commitment : ℕ → SubmittedCommitment
commitment n = commitment_of channel (pos n) (n ∷ []) key

abbrev row : ℕ → ℕ → Row
row id n = record {
  id = id;
  channel = channel;
  cumulative_amount = pos n;
  signature = n ∷ [];
  signer_key = key;
  verified_at = 77;
  valid = true;
}

abbrev two_rows : Db
two_rows = record { rows = row 4 90 ∷ row 2 40 ∷ []; next_id = 6 }

two_rows-IsTable : IsTable two_rows
unfolding bytes_eq
two_rows-IsTable = record {
  each = (
    record { positive = omega arith; fits = omega arith; key_length = refl },
    (record { positive = omega arith; fits = omega arith; key_length = refl }, tt),
  );
  rising = ((omega arith, tt), (λ e. omega arith, tt), (tt, tt, tt));
  fresh = (omega arith, (omega arith, tt));
}

abbrev no_faults : Faults
no_faults = record { on_insert = works; on_select = false }

submit-IsTable_example :
    IsTable
      (submit prepare signed
        (record { on_insert = breaks_after; on_select = true })
        two_rows
        80
        (commitment 95)).0
submit-IsTable_example =
    submit-IsTable prepare signed (record { on_insert = breaks_after; on_select = true }) two_rows
      80 (commitment 95) two_rows-IsTable

abbrev new_record : Record
new_record = record {
  id = 6;
  channel = channel;
  cumulative_amount = pos 95;
  signature = some (95 ∷ []);
  signer_key = key;
  verified_at = 80;
  valid = true;
  already_recorded = false;
}

new-accepted : (submit prepare signed no_faults two_rows 80 (commitment 95)).1 ≡ ok new_record
unfolding submit submit_amount persist answer insert current_max rejects_regression fits_numeric
    passes_checks check_row conflict_or_insert find_row verify_commitment bytes_eq
new-accepted = refl

submit-Acknowledged_example :
    Acknowledged prepare signed two_rows
      (submit prepare signed no_faults two_rows 80 (commitment 95)).0
      (commitment 95)
      new_record
submit-Acknowledged_example =
    submit-Acknowledged prepare signed no_faults two_rows 80 (commitment 95) new_record new-accepted

zero-incomplete :
    verify_commitment prepare signed key (some (pos 0)) (0 ∷ []) ≡ err (non_positive_amount (pos 0))
unfolding verify_commitment
zero-incomplete = refl

highest-verified : verify_commitment prepare signed key (some (pos 90)) (90 ∷ []) ≡ ok true
unfolding verify_commitment bytes_eq
highest-verified = refl

highest-found : find_row channel (pos 90) two_rows.rows ≡ some (row 4 90)
unfolding find_row bytes_eq
highest-found = refl

submit-retry_example : submit prepare signed no_faults two_rows 80 (commitment 90) ≡ (
  skip two_rows,
  ok (record {
    id = 4;
    channel = channel;
    cumulative_amount = pos 90;
    signature = some (90 ∷ []);
    signer_key = key;
    verified_at = 77;
    valid = true;
    already_recorded = true;
  }),
)
submit-retry_example =
    submit-retry prepare signed two_rows 80 channel (pos 90) (90 ∷ []) key true (row 4 90)
      two_rows-IsTable highest-verified (λ e. omega arith, (λ e. omega arith, tt)) highest-found

older-verified : verify_commitment prepare signed key (some (pos 40)) (40 ∷ []) ≡ ok true
unfolding verify_commitment bytes_eq
older-verified = refl

submit-behind_example :
    submit prepare signed no_faults two_rows 80 (commitment 40) ≡ (skip two_rows, err monotonic)
submit-behind_example =
    submit-behind prepare signed two_rows 80 channel (pos 40) (40 ∷ []) key true false 0 (row 4 90)
      (omega arith) older-verified refl (unfold bytes_eq in refl) (omega arith)
