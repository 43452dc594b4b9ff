-- ===== src/Custody/Submit/Durable.antt =====
-- internal/custody/store.go: what `Store.Submit` leaves in the database, and what a record that it
-- hands back says of it.
use tallybook.Prelude.{
  ℕ, ◌≡◌, ◌⊎◌, refl, sym, subst, Bool, true, false, Option, some, ◌∷◌, arith, Option-cases, inl,
  inr,
}
use tallybook.Prelude.Bytes.{Bytes}
use tallybook.Prelude.Int.{ℤ}
use tallybook.Prelude.Result.{ok, err, Result-cases}
use tallybook.Custody.Verify.{VerifyError, verify_commitment}
use tallybook.Custody.Table.{Row, Db, InsertResult, inserted, conflict, insert, find_row}
use tallybook.Custody.Table.Max.{find_row-push}
use tallybook.Custody.Table.Valid.{
  IsTable, insert-IsTable, insert-cases, Inserting, adds, finds, regresses, refuses, row_of, push,
  skip,
}
use tallybook.Custody.Submit.{
  SubmittedCommitment, Record, SubmitError, Link, Faults, works, breaks_before, breaks_after,
  signature_bytes, answer, persist, submit_amount, submit, verification_incomplete, read_existing,
}

Link-cases : (l : Link) → (l ≡ works) ⊎ ((l ≡ breaks_before) ⊎ (l ≡ breaks_after))
Link-cases works = inl refl
Link-cases breaks_before = inr (inl refl)
Link-cases breaks_after = inr (inr refl)

persist-IsTable :
    (f : Faults) (db : Db) (now : ℕ) (sc : SubmittedCommitment) (amount : ℤ) (valid : Bool)
    → IsTable db
    → IsTable (persist f db now sc amount valid).0
unfolding persist
persist-IsTable f db now sc amount valid h = elim (Link-cases f.on_insert) [
  | inr (inl e) ↦ rw (e, persist) h
  | inl e ↦
      rw (e, persist)
        (insert-IsTable db now sc.channel amount sc.trusted_signer_key valid sc.signature h)
  | inr (inr e) ↦
      rw (e, persist)
        (insert-IsTable db now sc.channel amount sc.trusted_signer_key valid sc.signature h)
]

-- What a record says of the database: there is a row of its channel and amount with its id, time
-- and verdict. A record that is new has its row on top, with the signature and the key that were
-- submitted; for one that is not, no row has changed.
pub record Stored (db db' : Db) (sc : SubmittedCommitment) (amount : ℤ) (verdict : Bool)
    (rec : Record) : Type 0 where
  pub row : Row
  pub found : find_row sc.channel amount db'.rows ≡ some row
  pub id : rec.id ≡ row.id
  pub valid : rec.valid ≡ row.valid
  pub verified_at : rec.verified_at ≡ row.verified_at
  pub amounts : rec.cumulative_amount ≡ amount
  pub fresh :
      rec.already_recorded ≡ false
      → (db'.rows ≡ row ∷ db.rows)
        × (some row.signature ≡ sc.signature)
        × (row.signer_key ≡ sc.trusted_signer_key)
        × (row.valid ≡ verdict)
  pub known : rec.already_recorded ≡ true → db'.rows ≡ db.rows

module _ (db : Db) (now : ℕ) (sc : SubmittedCommitment) (amount : ℤ) (verdict : Bool) where
  abbrev Answers : Bool → Record → Db × InsertResult → Type 0
  Answers lost rec p = answer lost p.0 p.1 sc amount ≡ ok rec → Stored db p.0 sc amount verdict rec

  answer-adds :
      (lost : Bool) (sig : Bytes) (rec : Record)
      → sc.signature ≡ some sig
      → (let row : Row = row_of db now sc.channel amount sig sc.trusted_signer_key verdict in
          Answers lost rec (push row db, inserted row))
  unfolding answer
  answer-adds lost sig rec e h =
      let row : Row = row_of db now sc.channel amount sig sc.trusted_signer_key verdict in
      record {
        row = row;
        found = find_row-push row db.rows;
        id = cc;
        valid = cc;
        verified_at = cc;
        amounts = cc;
        fresh = λ g. (refl, sym e, refl, refl);
        known = λ g. cc;
      }

  answer-finds :
      (lost : Bool) (q : Row) (rec : Record)
      → find_row sc.channel amount db.rows ≡ some q
      → Answers lost rec (skip db, conflict)
  unfolding answer read_existing
  answer-finds true q rec e h = cc
  answer-finds false q rec e h = record {
    row = q;
    found = e;
    id = cc;
    valid = cc;
    verified_at = cc;
    amounts = cc;
    fresh = λ g. cc;
    known = λ g. refl;
  }

  answer-Stored :
      (lost : Bool) (p : Db × InsertResult) (rec : Record)
      → Inserting db now sc.channel amount sc.trusted_signer_key verdict sc.signature p
      → Answers lost rec p
  unfolding answer
  answer-Stored lost p rec (adds sig e (f, k)) =
      subst (Answers lost rec) (sym f) (answer-adds lost sig rec e)
  answer-Stored lost p rec (finds q f e) =
      subst (Answers lost rec) (sym f) (answer-finds lost q rec e)
  answer-Stored lost p rec (regresses f e) = subst (Answers lost rec) (sym f) (λ h. cc)
  answer-Stored lost p rec (refuses x f (inl e)) = subst (Answers lost rec) (sym f) (rw e (λ h. cc))
  answer-Stored lost p rec (refuses x f (inr (inl e))) =
      subst (Answers lost rec) (sym f) (rw e (λ h. cc))
  answer-Stored lost p rec (refuses x f (inr (inr e))) =
      subst (Answers lost rec) (sym f) (rw e (λ h. cc))

  persist-Stored :
      (f : Faults) (rec : Record)
      → (persist f db now sc amount verdict).1 ≡ ok rec
      → Stored db (persist f db now sc amount verdict).0 sc amount verdict rec
  unfolding persist
  persist-Stored f rec = elim (Link-cases f.on_insert) [
    | inr (inl e) ↦ rw (e, persist) (λ h. cc)
    | inr (inr e) ↦ rw (e, persist) (λ h. cc)
    | inl e ↦
        rw (e, persist)
          (answer-Stored f.on_select
            (insert db now sc.channel amount sc.signature sc.trusted_signer_key verdict) rec
            (insert-cases db now sc.channel amount sc.trusted_signer_key verdict sc.signature))
  ]

module _ (prepare : ℤ → Option Bytes) (signed : Bytes → Bytes → Bytes → Bool) where
  submit_amount-IsTable :
      (f : Faults) (db : Db) (now : ℕ) (sc : SubmittedCommitment) (amount : ℤ)
      → IsTable db
      → IsTable (submit_amount prepare signed f db now sc amount).0
  unfolding submit_amount
  submit_amount-IsTable f db now sc amount h =
      elim (Result-cases (
        verify_commitment prepare signed sc.trusted_signer_key (some amount)
          (signature_bytes sc.signature))) [
            | inl (v, e) ↦ rw (e, submit_amount) (persist-IsTable f db now sc amount v h)
            | inr (x, e) ↦ rw (e, submit_amount) h
          ]

  -- With an amount, `submit` is `submit_amount`.
  pub submit_eq :
      (f : Faults) (db : Db) (now : ℕ) (sc : SubmittedCommitment) (a : ℤ)
      → sc.cumulative_amount ≡ some a
      → submit prepare signed f db now sc ≡ submit_amount prepare signed f db now sc a
  unfolding submit
  submit_eq f db now sc a e = ground arith

  -- Whatever is submitted and whatever goes wrong, a commitments table in order stays in order: ids
  -- rise, each channel's amounts rise strictly, amounts are positive and keys have 32 bytes.
  pub submit-IsTable :
      (f : Faults) (db : Db) (now : ℕ) (sc : SubmittedCommitment)
      → IsTable db
      → IsTable (submit prepare signed f db now sc).0
  unfolding submit
  submit-IsTable f db now sc h = elim (Option-cases sc.cumulative_amount) [
    | inl e ↦ rw (e, submit) h
    | inr (a, e) ↦ rw (e, submit) (submit_amount-IsTable f db now sc a h)
  ]

  -- What a record that `submit` hands back says: the submission had an amount, its verification
  -- was completed with a verdict, and the record is `Stored`.
  pub record Acknowledged (db db' : Db) (sc : SubmittedCommitment) (rec : Record) : Type 0 where
    pub amount : ℤ
    pub submitted : sc.cumulative_amount ≡ some amount
    pub verdict : Bool
    pub verified :
        verify_commitment prepare signed sc.trusted_signer_key
          (some amount)
          (signature_bytes sc.signature)
        ≡ ok verdict
    pub stored : Stored db db' sc amount verdict rec

  submit_amount-Acknowledged :
      (f : Faults) (db : Db) (now : ℕ) (sc : SubmittedCommitment) (a : ℤ) (rec : Record)
      → sc.cumulative_amount ≡ some a
      → (submit_amount prepare signed f db now sc a).1 ≡ ok rec
      → Acknowledged db (submit_amount prepare signed f db now sc a).0 sc rec
  unfolding submit_amount
  submit_amount-Acknowledged f db now sc a rec p =
      elim (Result-cases (
        verify_commitment prepare signed sc.trusted_signer_key (some a)
          (signature_bytes sc.signature))) [
            | inr (x, e) ↦ rw (e, submit_amount) (λ h. cc)
            | inl (v, e) ↦
                rw (e, submit_amount)
                  (λ h. record {
                    amount = a;
                    submitted = p;
                    verdict = v;
                    verified = e;
                    stored = persist-Stored db now sc a v f rec h;
                  })
          ]

  -- A record that `submit` hands back tells of a row that is in the table, with the record's id,
  -- verdict and time: on top and with the submitted signature, key and verdict if the record is
  -- new, and with no row changed if it is not.
  pub submit-Acknowledged :
      (f : Faults) (db : Db) (now : ℕ) (sc : SubmittedCommitment) (rec : Record)
      → (submit prepare signed f db now sc).1 ≡ ok rec
      → Acknowledged db (submit prepare signed f db now sc).0 sc rec
  unfolding submit
  submit-Acknowledged f db now sc rec = elim (Option-cases sc.cumulative_amount) [
    | inl e ↦ rw (e, submit) (λ h. cc)
    | inr (a, e) ↦ rw (submit_eq f db now sc a e) (submit_amount-Acknowledged f db now sc a rec e)
  ]

  -- A verification that is not completed leaves the database as it was, and `submit` says so.
  pub submit-incomplete :
      (f : Faults) (db : Db) (now : ℕ) (sc : SubmittedCommitment) (e : VerifyError)
      → verify_commitment prepare signed sc.trusted_signer_key sc.cumulative_amount
          (signature_bytes sc.signature)
        ≡ err e
      → ((submit prepare signed f db now sc).0 ≡ db)
        × (((submit prepare signed f db now sc).1 ≡ err SubmitError.nil_amount)
            ⊎ ((submit prepare signed f db now sc).1 ≡ err (verification_incomplete e)))
  unfolding submit submit_amount
  submit-incomplete f db now sc e h = elim (Option-cases sc.cumulative_amount) [
    | inl n ↦ rw (n, submit) ((refl, inl refl))
    | inr (a, n) ↦
        let k : verify_commitment prepare signed sc.trusted_signer_key (some a)
              (signature_bytes sc.signature)
            ≡ err e =
          rw (sym n) h in
        rw (n, submit, k, submit_amount) ((refl, inr refl))
  ]
