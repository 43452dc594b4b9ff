-- ===== src/Stellar/Registry.antt =====
-- internal/stellar/registry.go: the structs of the statement_registry contract, their decoders, and
-- the arguments of its calls.
pub mod Calls
pub mod RoundTrip
pub mod Disputes
mod Tests
use tallybook.Prelude.{
  ℕ, Bool, true, false, not, Option, none, some, List, [], ◌∷◌, length, ◌==◌, map,
}
use tallybook.Prelude.Bytes.{Bytes, ascii}
use tallybook.Prelude.Int.{ℤ}
use tallybook.Prelude.Result.{Result, ok, err, ◌>>=◌, ◌>>◌, fail_if, or_fail, map_err}
use tallybook.Stellar.ScVal.{ScVal}
use tallybook.Stellar.Xdr.{
  X, XdrError, Fields, Strkey, scv_address, scv_i128, scv_vec, decode_address, decode_bool,
  decode_bytes, decode_i128, decode_map, decode_string, decode_symbol, decode_u32, decode_u64,
  decode_vec, map_field,
}

-- A `Protocol` or a `Status` is a text, the variant's name.
pub record Statement : Type 0 where
  pub operator : Bytes
  pub consumer : Bytes
  pub period_start : ℕ
  pub period_end : ℕ
  pub usage_root : Bytes
  pub request_count : ℕ
  pub token : Bytes
  pub amount_billed : ℤ
  pub amount_settled : ℤ
  pub price_book_version : ℕ
  pub protocol : Bytes
  pub channel : Option Bytes
  pub anchored_ledger : ℕ
  pub status : Bytes

pub record Dispute : Type 0 where
  pub consumer : Bytes
  pub reason_hash : Bytes
  pub opened_ledger : ℕ
  pub resolution_hash : Option Bytes
  pub amount_credited : ℤ
  pub resolved_ledger : Option ℕ

abbrev pub scv_protocol : Bytes → ScVal
scv_protocol p = scv_vec (ScVal.symbol p ∷ [])

pub decode_single : List ScVal → X Bytes
decode_single [] = err (XdrError.bad_enum_length 0)
decode_single (v ∷ []) = decode_symbol v
decode_single (v ∷ w ∷ vs) = err (XdrError.bad_enum_length (length (v ∷ w ∷ vs)))

pub decode_unit_enum_variant : ScVal → X Bytes
unfolding decode_single
decode_unit_enum_variant v = do items ← decode_vec v; decode_single items

pub decode_bytes32 : ScVal → X Bytes
decode_bytes32 v = do
  b ← decode_bytes v
  fail_if (not (length b == 32)) (XdrError.bad_bytes_length (length b))
  ok b

-- A value that is void is `nil`, any other is decoded.
abbrev pub optional : {A : Type 0} → (ScVal → X A) → ScVal → X (Option A)
optional decode ScVal.void = ok none
optional decode v = decode v >>= λ x. ok (some x)

-- `get(key)`, and the decoder of the field with its error put under the field's name.
abbrev pub field : {A : Type 0} → Fields → Bytes → (ScVal → X A) → X A
field m key decode = map_field m key >>= λ v. map_err (XdrError.in_field key) (decode v)

module _ (strkey : Strkey) where
  pub scv_optional_address : Option Bytes → X ScVal
  scv_optional_address none = ok ScVal.void
  scv_optional_address (some addr) = scv_address strkey addr

  pub decode_optional_address : ScVal → X (Option Bytes)
  decode_optional_address v = optional (decode_address strkey) v

  pub decode_statement : ScVal → X Statement
  decode_statement v = do
    m ← decode_map v
    amount_billed ← field m (ascii "amount_billed") decode_i128
    amount_settled ← field m (ascii "amount_settled") decode_i128
    anchored_ledger ← field m (ascii "anchored_ledger") decode_u32
    channel ← field m (ascii "channel") decode_optional_address
    consumer ← field m (ascii "consumer") (decode_address strkey)
    operator ← field m (ascii "operator") (decode_address strkey)
    period_end ← field m (ascii "period_end") decode_u32
    period_start ← field m (ascii "period_start") decode_u32
    price_book_version ← field m (ascii "price_book_version") decode_u32
    protocol ← field m (ascii "protocol") decode_unit_enum_variant
    request_count ← field m (ascii "request_count") decode_u64
    status ← field m (ascii "status") decode_unit_enum_variant
    token ← field m (ascii "token") (decode_address strkey)
    usage_root ← field m (ascii "usage_root") decode_bytes32
    ok (record {
      operator = operator;
      consumer = consumer;
      period_start = period_start;
      period_end = period_end;
      usage_root = usage_root;
      request_count = request_count;
      token = token;
      amount_billed = amount_billed;
      amount_settled = amount_settled;
      price_book_version = price_book_version;
      protocol = protocol;
      channel = channel;
      anchored_ledger = anchored_ledger;
      status = status;
    })

  pub decode_dispute : ScVal → X Dispute
  decode_dispute v = do
    m ← decode_map v
    amount_credited ← field m (ascii "amount_credited") decode_i128
    consumer ← field m (ascii "consumer") (decode_address strkey)
    opened_ledger ← field m (ascii "opened_ledger") decode_u32
    reason_hash ← field m (ascii "reason_hash") decode_bytes32
    resolution_hash ← field m (ascii "resolution_hash") (optional decode_bytes32)
    resolved_ledger ← field m (ascii "resolved_ledger") (optional decode_u32)
    ok (record {
      consumer = consumer;
      reason_hash = reason_hash;
      opened_ledger = opened_ledger;
      resolution_hash = resolution_hash;
      amount_credited = amount_credited;
      resolved_ledger = resolved_ledger;
    })

  -- The arguments of the calls.
  pub anchor_args :
      Bytes
      → Bytes
      → ℕ
      → ℕ
      → Bytes
      → ℕ
      → Bytes
      → Option ℤ
      → Option ℤ
      → ℕ
      → Bytes
      → Option Bytes
      → X (List ScVal)
  unfolding scv_optional_address
  anchor_args signer consumer period_start period_end usage_root request_count token billed settled
        version protocol channel =
      do
        operator_arg ← scv_address strkey signer
        consumer_arg ← scv_address strkey consumer
        token_arg ← scv_address strkey token
        billed_arg ← scv_i128 billed
        settled_arg ← scv_i128 settled
        channel_arg ← scv_optional_address channel
        ok (
            operator_arg
            ∷ consumer_arg
            ∷ ScVal.u32 period_start
            ∷ ScVal.u32 period_end
            ∷ ScVal.bytes usage_root
            ∷ ScVal.u64 request_count
            ∷ token_arg
            ∷ billed_arg
            ∷ settled_arg
            ∷ ScVal.u32 version
            ∷ scv_protocol protocol
            ∷ channel_arg
            ∷ [])

  pub resolve_dispute_args : Bytes → ℕ → Bytes → Option ℤ → X (List ScVal)
  resolve_dispute_args operator seq resolution_hash amount_credited = do
    operator_arg ← scv_address strkey operator
    credited_arg ← scv_i128 amount_credited
    ok (operator_arg ∷ ScVal.u64 seq ∷ ScVal.bytes resolution_hash ∷ credited_arg ∷ [])
