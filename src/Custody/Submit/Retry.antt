-- ===== src/Custody/Submit/Retry.antt =====
-- internal/custody/store.go: a commitment that is submitted again, or behind a higher one.
use tallybook.Prelude.{ℕ, ◌≡◌, refl, Bool, true, false, Option, some, get_elem?, ◌^◌}
use tallybook.Prelude.Bytes.{Bytes, bytes_eq}
use tallybook.Prelude.Int.{ℤ, pos, ◌<ℤ◌}
use tallybook.Prelude.Result.{ok, err}
use tallybook.Custody.Verify.{verify_commitment, Verified, verify_commitment-Verified}
use tallybook.Custody.Table.{Row, Db, conflict, monotonic_violation, insert, find_row}
use tallybook.Custody.Table.Max.{AtMost}
use tallybook.Custody.Table.Valid.{IsTable, skip}
use tallybook.Custody.Table.Conflicts.{
  conflict_of_find_row, regression_of_higher, rejects_of_higher,
}
use tallybook.Custody.Submit.{
  SubmittedCommitment, works, answer, persist, submit_amount, submit, monotonic, read_existing,
}

-- A submission whose fields are all there.
abbrev pub commitment_of : Bytes → ℤ → Bytes → Bytes → SubmittedCommitment
commitment_of channel a signature key = record {
  channel = channel;
  cumulative_amount = some a;
  signature = some signature;
  trusted_signer_key = key;
}

module _ (prepare : ℤ → Option Bytes) (signed : Bytes → Bytes → Bytes → Bool) where
  -- A commitment of a channel whose amount is recorded already and is the channel's highest is
  -- submitted again, its verification is completed with whatever verdict, and the database works:
  -- no row changes, and the record has the id, the time and the verdict of the recorded row.
  pub submit-retry :
      (db : Db) (now : ℕ) (channel : Bytes) (a : ℤ) (sig : Bytes) (key : Bytes) (v : Bool) (q : Row)
      → IsTable db
      → verify_commitment prepare signed key (some a) sig ≡ ok v
      → AtMost channel a db.rows
      → find_row channel a db.rows ≡ some q
      → submit prepare signed
          (record { on_insert = works; on_select = false })
          db
          now
          (commitment_of channel a sig key)
        ≡ (
          skip db,
          ok (record {
            id = q.id;
            channel = channel;
            cumulative_amount = a;
            signature = some sig;
            signer_key = key;
            verified_at = q.verified_at;
            valid = q.valid;
            already_recorded = true;
          }),
        )
  unfolding submit submit_amount persist answer read_existing
  submit-retry db now channel a sig key v q h ev m e =
      let w : Verified prepare signed key a sig v =
        verify_commitment-Verified prepare signed key a sig v ev in
      let c : insert db now channel a (some sig) key v ≡ (skip db, conflict) =
        conflict_of_find_row db now channel a sig key v q h w.key_length m e in
      rw (ev, submit, submit_amount, persist, c, answer, c, read_existing, e) refl

  -- Behind a row of its channel with a higher amount, whether that row is valid or not, no
  -- commitment is recorded, not even one that has been recorded before: the verification is
  -- completed, the database works, and the answer is the monotonic error with no row changed.
  pub submit-behind :
      (db : Db) (now : ℕ) (channel : Bytes) (a : ℤ) (sig : Bytes) (key : Bytes) (v : Bool)
      (lost : Bool) (i : ℕ) (q : Row)
      → a <ℤ pos (10 ^ 39)
      → verify_commitment prepare signed key (some a) sig ≡ ok v
      → get_elem? db.rows i ≡ some q
      → bytes_eq q.channel channel ≡ true
      → a <ℤ q.cumulative_amount
      → submit prepare signed
          (record { on_insert = works; on_select = lost })
          db
          now
          (commitment_of channel a sig key)
        ≡ (skip db, err monotonic)
  unfolding submit submit_amount persist answer
  submit-behind db now channel a sig key v lost i q f ev e c l =
      let w : Verified prepare signed key a sig v =
        verify_commitment-Verified prepare signed key a sig v ev in
      let k : insert db now channel a (some sig) key v ≡ (skip db, monotonic_violation) =
        regression_of_higher db now channel a (some sig) key v f w.positive
          (rejects_of_higher channel a db.rows i q e c l) in
      rw (ev, submit, submit_amount, persist, k, answer) refl
