-- ===== src/Stellar/Events.antt =====
-- internal/stellar/events.go: the events of the three contracts. `xdr.SafeUnmarshalBase64` is the
-- parameter `unmarshal`. An index past a slice's end, where Go panics, is an error of its own.
pub mod RoundTrip
mod Tests
use tallybook.Prelude.{
  ℕ, Bool, true, false, not, Option, none, some, List, [], ◌∷◌, length, get_elem?, ◌==◌,
  if◌then◌else◌,
}
use tallybook.Prelude.Bytes.{Bytes, bytes_eq}
use tallybook.Prelude.Int.{ℤ}
use tallybook.Prelude.Result.{Result, ok, err, ◌>>=◌, ◌>>◌, fail_if, or_fail, map_err}
use tallybook.Stellar.ScVal.{ScVal}
use tallybook.Stellar.Xdr.{
  X, XdrError, Strkey, decode_address, decode_i128, decode_symbol, decode_u32, decode_u64,
  decode_vec,
}
use tallybook.Stellar.Registry.{decode_bytes32, decode_unit_enum_variant}

pub record PriceBookPublishEvent : Type 0 where
  pub operator : Bytes
  pub version : ℕ
  pub schedule_hash : Bytes
  pub effective_ledger : ℕ

pub record StatementAnchorEvent : Type 0 where
  pub operator : Bytes
  pub consumer : Bytes
  pub seq : ℕ
  pub usage_root : Bytes
  pub amount_billed : ℤ
  pub amount_settled : ℤ
  pub protocol : Bytes

pub record StatementDisputeEvent : Type 0 where
  pub operator : Bytes
  pub consumer : Bytes
  pub seq : ℕ
  pub reason_hash : Bytes

pub record StatementResolveEvent : Type 0 where
  pub operator : Bytes
  pub consumer : Bytes
  pub seq : ℕ
  pub resolution_hash : Bytes
  pub amount_credited : ℤ

pub record ChannelOpenEvent : Type 0 where
  pub from : Bytes
  pub commitment_key : Bytes
  pub to : Bytes
  pub token : Bytes
  pub amount : ℤ
  pub refund_waiting_period : ℕ

pub record ChannelCloseEvent : Type 0 where
  pub effective_at_ledger : ℕ

pub record ChannelWithdrawEvent : Type 0 where
  pub to : Bytes
  pub amount : ℤ

pub record ChannelRefundEvent : Type 0 where
  pub from : Bytes
  pub amount : ℤ

-- `items[i]`, decoded.
abbrev pub item : {A : Type 0} → List ScVal → ℕ → (ScVal → X A) → X A
item items i decode = or_fail (get_elem? items i) (XdrError.index_out_of_range i) >>= decode

module _ (unmarshal : Bytes → Option ScVal) where
  pub match_topics : List Bytes → List Bytes → X Bool
  match_topics [] want = ok true
  match_topics (t ∷ ts) [] = err (XdrError.index_out_of_range 0)
  match_topics (t ∷ ts) (w ∷ ws) =
      let rest = match_topics ts ws in
      (or_fail (unmarshal t) XdrError.bad_base64 >>= λ v.
      decode_symbol v >>= λ sym. if bytes_eq sym w then rest else ok false)

  pub matches_topic : List Bytes → List Bytes → X Bool
  unfolding match_topics
  matches_topic topic want =
      if length topic == length want then match_topics topic want else ok false

  pub decode_event_fields : Bytes → ℕ → X (List ScVal)
  decode_event_fields value want = do
    v ← or_fail (unmarshal value) XdrError.bad_base64
    items ← decode_vec v
    fail_if (not (length items == want)) (XdrError.bad_event_length (length items) want)
    ok items

module _ (unmarshal : Bytes → Option ScVal) (strkey : Strkey) where
  pub decode_price_book_publish_event : Bytes → X PriceBookPublishEvent
  unfolding decode_event_fields
  decode_price_book_publish_event value = do
    items ← decode_event_fields unmarshal value 4
    operator ← item items 0 (decode_address strkey)
    version ← item items 1 decode_u32
    schedule_hash ← item items 2 decode_bytes32
    effective_ledger ← item items 3 decode_u32
    ok (record {
      operator = operator;
      version = version;
      schedule_hash = schedule_hash;
      effective_ledger = effective_ledger;
    })

  pub decode_statement_anchor_event : Bytes → X StatementAnchorEvent
  unfolding decode_event_fields
  decode_statement_anchor_event value = do
    items ← decode_event_fields unmarshal value 7
    operator ← item items 0 (decode_address strkey)
    consumer ← item items 1 (decode_address strkey)
    seq ← item items 2 decode_u64
    usage_root ← item items 3 decode_bytes32
    amount_billed ← item items 4 decode_i128
    amount_settled ← item items 5 decode_i128
    protocol ← item items 6 decode_unit_enum_variant
    ok (record {
      operator = operator;
      consumer = consumer;
      seq = seq;
      usage_root = usage_root;
      amount_billed = amount_billed;
      amount_settled = amount_settled;
      protocol = protocol;
    })

  pub decode_statement_dispute_event : Bytes → X StatementDisputeEvent
  unfolding decode_event_fields
  decode_statement_dispute_event value = do
    items ← decode_event_fields unmarshal value 4
    operator ← item items 0 (decode_address strkey)
    consumer ← item items 1 (decode_address strkey)
    seq ← item items 2 decode_u64
    reason_hash ← item items 3 decode_bytes32
    ok (record { operator = operator; consumer = consumer; seq = seq; reason_hash = reason_hash })

  pub decode_statement_resolve_event : Bytes → X StatementResolveEvent
  unfolding decode_event_fields
  decode_statement_resolve_event value = do
    items ← decode_event_fields unmarshal value 5
    operator ← item items 0 (decode_address strkey)
    consumer ← item items 1 (decode_address strkey)
    seq ← item items 2 decode_u64
    resolution_hash ← item items 3 decode_bytes32
    amount_credited ← item items 4 decode_i128
    ok (record {
      operator = operator;
      consumer = consumer;
      seq = seq;
      resolution_hash = resolution_hash;
      amount_credited = amount_credited;
    })

  pub decode_channel_open_event : Bytes → X ChannelOpenEvent
  unfolding decode_event_fields
  decode_channel_open_event value = do
    items ← decode_event_fields unmarshal value 6
    from ← item items 0 (decode_address strkey)
    commitment_key ← item items 1 decode_bytes32
    to ← item items 2 (decode_address strkey)
    token ← item items 3 (decode_address strkey)
    amount ← item items 4 decode_i128
    refund_waiting_period ← item items 5 decode_u32
    ok (record {
      from = from;
      commitment_key = commitment_key;
      to = to;
      token = token;
      amount = amount;
      refund_waiting_period = refund_waiting_period;
    })

  pub decode_channel_close_event : Bytes → X ChannelCloseEvent
  unfolding decode_event_fields
  decode_channel_close_event value = do
    items ← decode_event_fields unmarshal value 1
    effective_at_ledger ← item items 0 decode_u32
    ok (record { effective_at_ledger = effective_at_ledger })

  pub decode_channel_withdraw_event : Bytes → X ChannelWithdrawEvent
  unfolding decode_event_fields
  decode_channel_withdraw_event value = do
    items ← decode_event_fields unmarshal value 2
    to ← item items 0 (decode_address strkey)
    amount ← item items 1 decode_i128
    ok (record { to = to; amount = amount })

  pub decode_channel_refund_event : Bytes → X ChannelRefundEvent
  unfolding decode_event_fields
  decode_channel_refund_event value = do
    items ← decode_event_fields unmarshal value 2
    from ← item items 0 (decode_address strkey)
    amount ← item items 1 decode_i128
    ok (record { from = from; amount = amount })
