-- ===== src/Stellar/Events/Tests.antt =====
-- Events on the wire, and the theorems at them.
use tallybook.Prelude.{◌≡◌, refl, Option, none, some, List, [], ◌∷◌, replicate, ◌==◌, if◌then◌else◌}
use tallybook.Prelude.Bytes.{Bytes, ascii}
use tallybook.Prelude.Int.{pos}
use tallybook.Prelude.Result.{ok}
use tallybook.Stellar.ScVal.{ScVal, ScAddress}
use tallybook.Stellar.Xdr.{scv_address, scv_i128, scv_vec, in_i128, i128_parts}
use tallybook.Stellar.Registry.{scv_protocol}
use tallybook.Stellar.Events.{StatementAnchorEvent, ChannelOpenEvent, decode_statement_anchor_event}
use tallybook.Stellar.Events.RoundTrip.{decode_statement_anchor_event-unmarshal}
use tallybook.Stellar.Toy.{toy_strkey, toy_strkey-IsCodec, key, account_text, contract_text}

abbrev account_val : ScVal
account_val = ScVal.address (ScAddress.account key)

abbrev contract_val : ScVal
contract_val = ScVal.address (ScAddress.contract key)

abbrev five_hundred : ScVal
five_hundred = ScVal.i128 (record { hi = pos 0; lo = 500 })

account-scv : scv_address toy_strkey account_text ≡ ok account_val
unfolding scv_address
account-scv = refl

contract-scv : scv_address toy_strkey contract_text ≡ ok contract_val
unfolding scv_address
contract-scv = refl

five_hundred-scv : scv_i128 (some (pos 500)) ≡ ok five_hundred
unfolding scv_i128 in_i128 i128_parts
five_hundred-scv = refl

abbrev anchor_event : StatementAnchorEvent
anchor_event = record {
  operator = account_text;
  consumer = account_text;
  seq = 4;
  usage_root = replicate 32 1;
  amount_billed = pos 500;
  amount_settled = pos 500;
  protocol = ascii "X402";
}

abbrev anchor_unmarshal : Bytes → Option ScVal
anchor_unmarshal text = some (
    scv_vec (
      account_val
      ∷ account_val
      ∷ ScVal.u64 4
      ∷ ScVal.bytes (replicate 32 1)
      ∷ five_hundred
      ∷ five_hundred
      ∷ scv_protocol (ascii "X402")
      ∷ []))

decode_statement_anchor_event-unmarshal_example :
    decode_statement_anchor_event anchor_unmarshal toy_strkey [] ≡ ok anchor_event
decode_statement_anchor_event-unmarshal_example =
    decode_statement_anchor_event-unmarshal anchor_unmarshal toy_strkey toy_strkey-IsCodec []
      anchor_event account_val account_val five_hundred five_hundred account-scv account-scv
      five_hundred-scv five_hundred-scv refl refl

abbrev open_event : ChannelOpenEvent
open_event = record {
  from = account_text;
  commitment_key = replicate 32 1;
  to = account_text;
  token = contract_text;
  amount = pos 500;
  refund_waiting_period = 17;
}

abbrev open_unmarshal : Bytes → Option ScVal
open_unmarshal text = some (
    scv_vec (
      account_val
      ∷ ScVal.bytes (replicate 32 1)
      ∷ account_val
      ∷ contract_val
      ∷ five_hundred
      ∷ ScVal.u32 17
      ∷ []))

abbrev topics : List (Bytes × Bytes)
topics = (ascii "a", ascii "statement") ∷ (ascii "b", ascii "anchor") ∷ []

abbrev topic_unmarshal : Bytes → Option ScVal
topic_unmarshal [] = none
topic_unmarshal (b ∷ bs) =
    some (ScVal.symbol (if b == b'a' then ascii "statement" else ascii "anchor"))
