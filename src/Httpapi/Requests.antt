-- ===== src/Httpapi/Requests.antt =====
-- internal/store/requests.go and migrations/0002_requests.sql: `RecordRequest` and the table of
-- requests. Rows stand newest first; `id`, `period_id` and `created_at` are left out. The driver
-- refuses an integer that its column cannot hold before it sends the statement. The database keeps
-- texts in UTF-8, Postgres' default.
pub mod Insert
use tallybook.Prelude.{
  ℕ, zero, suc, ◌-◌, ◌^◌, Bool, true, false, not, ◌&&◌, ◌||◌, Option, none, some, List, [], ◌∷◌,
  length, ltb, ◌==◌, if◌then◌else◌,
}
use tallybook.Prelude.Bytes.{Bytes, bytes_eq, ascii}
use tallybook.Prelude.Int.{ℤ, pos, negsuc, ltb_ℤ}
use tallybook.Prelude.Result.{Result, ok, err}

pub record RecordedRequest : Type 0 where
  pub request_id : Bytes
  pub operator : Bytes
  pub consumer : Bytes
  pub endpoint_hash : Bytes
  pub method : Bytes
  pub path_template : Bytes
  pub unit_count : ℕ
  pub price_version : ℕ
  pub charged_amount : Option ℤ
  pub protocol : Bytes
  pub channel : Bytes
  pub observed_ledger : ℕ

pub record Row : Type 0 where
  pub request_id : Bytes
  pub operator : Bytes
  pub consumer : Bytes
  pub endpoint_hash : Bytes
  pub method : Bytes
  pub path_template : Bytes
  pub unit_count : ℕ
  pub price_version : ℕ
  pub charged_amount : ℤ
  pub protocol : Bytes
  pub channel : Option Bytes
  pub observed_ledger : ℕ

pub data StoreError : Type 0 where
  nil_charge insert_failed : StoreError

-- The statement's connection works, breaks before the insert, or breaks behind it.
pub data Link : Type 0 where
  works breaks_before breaks_after : Link

-- An empty text becomes NULL.
abbrev pub nullable : Bytes → Option Bytes
nullable [] = none
nullable (b ∷ bs) = some (b ∷ bs)

abbrev pub is_some : {A : Type 0} → Option A → Bool
is_some none = false
is_some (some a) = true

abbrev pub same : Bool → Bool → Bool
same true b = b
same false b = not b

-- BIGINT, INTEGER and NUMERIC(39, 0).
unfoldable pub fits_columns : Row → Bool
fits_columns r =
    ltb r.unit_count (2 ^ 63)
    && ltb r.price_version (2 ^ 31)
    && ltb r.observed_ledger (2 ^ 31)
    && ltb_ℤ r.charged_amount (pos (10 ^ 39))
    && ltb_ℤ (negsuc (10 ^ 39 - 1)) r.charged_amount

-- The range of a byte.
abbrev between : ℕ → ℕ → ℕ → Bool
between lo hi b = not (ltb b lo) && not (ltb hi b)

-- What Postgres takes for a TEXT column: UTF-8 of shortest form, without a surrogate, up to U+10FFFF,
-- and no zero byte. The state is what has to follow: the range of the next byte and the number of
-- bytes from 80 to BF behind it.
unfoldable text_step : Option (ℕ × ℕ × ℕ) → ℕ → Option (Option (ℕ × ℕ × ℕ))
text_step none b =
    if between 1 127 b
    then some none
    else if between 194 223 b
    then some (some (128, 191, 0))
    else if b == 224
    then some (some (160, 191, 1))
    else if b == 237
    then some (some (128, 159, 1))
    else if between 225 239 b
    then some (some (128, 191, 1))
    else if b == 240
    then some (some (144, 191, 2))
    else if between 241 243 b
    then some (some (128, 191, 2))
    else if b == 244
    then some (some (128, 143, 2))
    else none
text_step (some (lo, hi, zero)) b = if between lo hi b then some none else none
text_step (some (lo, hi, suc n)) b = if between lo hi b then some (some (128, 191, n)) else none

unfoldable pub text_from : Option (ℕ × ℕ × ℕ) → Bytes → Bool
unfolding text_step
text_from none [] = true
text_from (some n) [] = false
text_from state (b ∷ bs) = elim (text_step state b) [ none ↦ false | some next ↦ text_from next bs ]

unfoldable pub is_text : Bytes → Bool
unfolding text_from
is_text bs = text_from none bs

-- A nullable one.
unfoldable pub text_or_null : Option Bytes → Bool
unfolding is_text
text_or_null none = true
text_or_null (some bs) = is_text bs

-- The TEXT columns.
unfoldable pub fits_texts : Row → Bool
unfolding is_text text_or_null
fits_texts r =
    is_text r.operator
    && is_text r.consumer
    && is_text r.method
    && is_text r.path_template
    && is_text r.protocol
    && text_or_null r.channel

-- The constraints on the protocol and the channel.
unfoldable pub passes_channel : Bytes → Option Bytes → Bool
passes_channel protocol channel =
    (bytes_eq protocol (ascii "x402")
      || bytes_eq protocol (ascii "mpp_charge")
      || bytes_eq protocol (ascii "mpp_session"))
    && same (bytes_eq protocol (ascii "mpp_session")) (is_some channel)

-- The CHECK constraints.
unfoldable pub passes_checks : Row → Bool
passes_checks r =
    length r.request_id == 32
    && length r.endpoint_hash == 32
    && ltb 0 r.unit_count
    && not (ltb_ℤ r.charged_amount (pos 0))
    && passes_channel r.protocol r.channel

-- The unique constraint on `request_id`.
unfoldable pub is_recorded : Bytes → List Row → Bool
is_recorded request_id [] = false
is_recorded request_id (r ∷ rows) =
    if bytes_eq r.request_id request_id then true else is_recorded request_id rows

unfoldable pub accepts : List Row → Row → Bool
accepts rows r =
    fits_columns r && fits_texts r && passes_checks r && not (is_recorded r.request_id rows)

abbrev pub row_of : RecordedRequest → ℤ → Row
row_of req amount = record {
  request_id = req.request_id;
  operator = req.operator;
  consumer = req.consumer;
  endpoint_hash = req.endpoint_hash;
  method = req.method;
  path_template = req.path_template;
  unit_count = req.unit_count;
  price_version = req.price_version;
  charged_amount = amount;
  protocol = req.protocol;
  channel = nullable req.channel;
  observed_ledger = req.observed_ledger;
}

unfoldable pub insert_row : Link → List Row → Row → List Row × Option StoreError
unfolding accepts
insert_row breaks_before rows r = (rows, some insert_failed)
insert_row breaks_after rows r = (if accepts rows r then r ∷ rows else rows, some insert_failed)
insert_row works rows r = if accepts rows r then (r ∷ rows, none) else (rows, some insert_failed)

-- `RecordRequest`: the table and the error, if any.
unfoldable pub record_request : Link → List Row → RecordedRequest → List Row × Option StoreError
unfolding insert_row
record_request link rows req = elim req.charged_amount [
  | none ↦ (rows, some nil_charge)
  | some amount ↦ insert_row link rows (row_of req amount)
]
