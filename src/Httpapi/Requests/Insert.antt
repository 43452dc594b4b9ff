-- ===== src/Httpapi/Requests/Insert.antt =====
-- What `RecordRequest` does to the table.
use tallybook.Prelude.{
  ◌≡◌, ◌≢◌, ◌<◌, ◌^◌, length, refl, true, false, none, some, List, ◌∷◌, arith, Option-cases, inl,
  inr,
}
use tallybook.Prelude.Int.{ℤ, pos, ◌≤ℤ◌, ◌<ℤ◌}
use tallybook.Httpapi.Requests.{
  RecordedRequest, Row, StoreError, Link, works, breaks_before, breaks_after, nil_charge, row_of,
  accepts, fits_columns, fits_texts, passes_checks, passes_channel, is_recorded, insert_row,
  record_request,
}

insert_row-none :
    (link : Link) (rows : List Row) (r : Row)
    → (insert_row link rows r).1 ≡ none
    → ((insert_row link rows r).0 ≡ r ∷ rows) × (accepts rows r ≡ true)
unfolding insert_row
insert_row-none breaks_before rows r e = cc
insert_row-none breaks_after rows r e = cc
insert_row-none works rows r e = ground arith

insert_row-some :
    (link : Link) (rows : List Row) (r : Row) (x : StoreError)
    → (insert_row link rows r).1 ≡ some x
    → link ≢ breaks_after
    → (insert_row link rows r).0 ≡ rows
unfolding insert_row
insert_row-some breaks_before rows r x e h = refl
insert_row-some breaks_after rows r x e h = absurd (h refl)
insert_row-some works rows r x e h = ground arith

record_request-insert_row :
    (link : Link) (rows : List Row) (req : RecordedRequest) (amount : ℤ)
    → req.charged_amount ≡ some amount
    → record_request link rows req ≡ insert_row link rows (row_of req amount)
unfolding record_request
record_request-insert_row link rows req amount e = ground arith

record_request-nil :
    (link : Link) (rows : List Row) (req : RecordedRequest)
    → req.charged_amount ≡ none
    → record_request link rows req ≡ (rows, some nil_charge)
unfolding record_request
record_request-nil link rows req e = ground arith

-- No error: the row is there, and the table has accepted it.
pub record_request-none :
    (link : Link) (rows : List Row) (req : RecordedRequest)
    → (record_request link rows req).1 ≡ none
    → (amount : ℤ) × (req.charged_amount ≡ some amount)
      × ((record_request link rows req).0 ≡ row_of req amount ∷ rows)
      × (accepts rows (row_of req amount) ≡ true)
record_request-none link rows req h = elim (Option-cases req.charged_amount) [
  | inl e ↦ cc (rw (record_request-nil link rows req e) at h)
  | inr (amount, e) ↦
      let (p, a) =
        insert_row-none link rows (row_of req amount)
          (rw (record_request-insert_row link rows req amount e) at h) in
      (amount, e, rw (record_request-insert_row link rows req amount e) p, a)
]

-- An error of a connection that does not break behind the insert: the table is as it was.
pub record_request-some :
    (link : Link) (rows : List Row) (req : RecordedRequest) (x : StoreError)
    → (record_request link rows req).1 ≡ some x
    → link ≢ breaks_after
    → (record_request link rows req).0 ≡ rows
record_request-some link rows req x h l = elim (Option-cases req.charged_amount) [
  | inl e ↦ rw (record_request-nil link rows req e) refl
  | inr (amount, e) ↦ rw (record_request-insert_row link rows req amount e) (
      insert_row-some link rows (row_of req amount) x
        (rw (record_request-insert_row link rows req amount e) at h) l)
]

pub record_request-accepts :
    (rows : List Row) (req : RecordedRequest) (amount : ℤ)
    → req.charged_amount ≡ some amount
    → accepts rows (row_of req amount) ≡ true
    → record_request works rows req ≡ (row_of req amount ∷ rows, none)
unfolding record_request insert_row
record_request-accepts rows req amount e a = ground arith

-- A row that the table takes.
pub record IsTakable (rows : List Row) (r : Row) : Type 0 where
  pub id_length : length r.request_id ≡ 32
  pub hash_length : length r.endpoint_hash ≡ 32
  pub some_unit : 0 < r.unit_count
  pub units_fit : r.unit_count < 2 ^ 63
  pub version_fits : r.price_version < 2 ^ 31
  pub ledger_fits : r.observed_ledger < 2 ^ 31
  pub no_debt : pos 0 ≤ℤ r.charged_amount
  pub amount_fits : r.charged_amount <ℤ pos (10 ^ 39)
  pub texts : fits_texts r ≡ true
  pub channel_set : passes_channel r.protocol r.channel ≡ true
  pub new_id : is_recorded r.request_id rows ≡ false

pub IsTakable-accepts : (rows : List Row) (r : Row) → IsTakable rows r → accepts rows r ≡ true
unfolding accepts fits_columns passes_checks
IsTakable-accepts rows r h = ground arith
