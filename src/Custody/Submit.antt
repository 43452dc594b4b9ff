-- ===== src/Custody/Submit.antt =====
-- internal/custody/store.go: `Store.Submit`. What may go wrong on the way to the database and back
-- is the argument `Faults`.
pub mod Durable
pub mod Retry
mod Tests
use tallybook.Prelude.{ℕ, Bool, true, false, Option, none, some, []}
use tallybook.Prelude.Bytes.{Bytes}
use tallybook.Prelude.Int.{ℤ}
use tallybook.Prelude.Result.{Result, ok, err}
use tallybook.Custody.Verify.{VerifyError, verify_commitment}
use tallybook.Custody.Table.{
  Row, Db, InsertResult, inserted, conflict, monotonic_violation, not_null_violation,
  check_violation, numeric_out_of_range, insert, find_row,
}

-- A nil signature is `none`: to the verification an empty text, to the database NULL.
pub record SubmittedCommitment : Type 0 where
  pub channel : Bytes
  pub cumulative_amount : Option ℤ
  pub signature : Option Bytes
  pub trusted_signer_key : Bytes

pub record Record : Type 0 where
  pub id : ℕ
  pub channel : Bytes
  pub cumulative_amount : ℤ
  pub signature : Option Bytes
  pub signer_key : Bytes
  pub verified_at : ℕ
  pub valid : Bool
  pub already_recorded : Bool

pub data SubmitError : Type 0 where
  nil_amount : SubmitError
  verification_incomplete : VerifyError → SubmitError
  monotonic : SubmitError
  read_existing_failed : SubmitError
  insert_failed : SubmitError

-- The INSERT's connection works, breaks before the statement runs, or breaks after it has run and
-- before its answer arrives.
pub data Link : Type 0 where
  works breaks_before breaks_after : Link

pub record Faults : Type 0 where
  pub on_insert : Link
  pub on_select : Bool

abbrev signature_bytes : Option Bytes → Bytes
signature_bytes none = []
signature_bytes (some s) = s

-- The read of an existing row after a conflict.
read_existing : Bool → Option Row → SubmittedCommitment → ℤ → Result SubmitError Record
read_existing true row sc amount = err read_existing_failed
read_existing false none sc amount = err read_existing_failed
read_existing false (some row) sc amount = ok (record {
  id = row.id;
  channel = sc.channel;
  cumulative_amount = amount;
  signature = sc.signature;
  signer_key = sc.trusted_signer_key;
  verified_at = row.verified_at;
  valid = row.valid;
  already_recorded = true;
})

-- The switch on the outcome of the insert; `db` is the database after it.
answer : Bool → Db → InsertResult → SubmittedCommitment → ℤ → Result SubmitError Record
unfolding read_existing
answer lost db (inserted row) sc amount = ok (record {
  id = row.id;
  channel = sc.channel;
  cumulative_amount = amount;
  signature = sc.signature;
  signer_key = sc.trusted_signer_key;
  verified_at = row.verified_at;
  valid = row.valid;
  already_recorded = false;
})
answer lost db conflict sc amount =
    read_existing lost (find_row sc.channel amount db.rows) sc amount
answer lost db monotonic_violation sc amount = err monotonic
answer lost db not_null_violation sc amount = err insert_failed
answer lost db check_violation sc amount = err insert_failed
answer lost db numeric_out_of_range sc amount = err insert_failed

-- The statements that are sent once the verdict is known.
persist : Faults → Db → ℕ → SubmittedCommitment → ℤ → Bool → Db × Result SubmitError Record
persist f db now sc amount valid =
    let (db', r) = insert db now sc.channel amount sc.signature sc.trusted_signer_key valid in
    elim f.on_insert [
      | breaks_before ↦ (db, err insert_failed)
      | breaks_after ↦ (db', err insert_failed)
      | works ↦ (db', answer f.on_select db' r sc amount)
    ]

module _ (prepare : ℤ → Option Bytes) (signed : Bytes → Bytes → Bytes → Bool) where
  pub submit_amount : Faults → Db → ℕ → SubmittedCommitment → ℤ → Db × Result SubmitError Record
  submit_amount f db now sc amount =
      elim (verify_commitment prepare signed sc.trusted_signer_key (some amount)
        (signature_bytes sc.signature)) [
          | err e ↦ (db, err (verification_incomplete e))
          | ok valid ↦ persist f db now sc amount valid
        ]

  pub submit : Faults → Db → ℕ → SubmittedCommitment → Db × Result SubmitError Record
  submit f db now sc = elim sc.cumulative_amount [
    | none ↦ (db, err SubmitError.nil_amount)
    | some amount ↦ submit_amount f db now sc amount
  ]
