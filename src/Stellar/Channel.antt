-- ===== src/Stellar/Channel.antt =====
-- internal/stellar/channel.go: the binding of the one-way channel contract, and the message that a
-- commitment signs. What a call of the contract returns is the parameter `call`, `none` where the
-- simulation or the transaction fails; the transaction's hash is left out. The XDR encoder is
-- `marshal`, and the SDK's `network.ID` is `network_id`.
pub mod Commitments
mod Tests
use tallybook.Prelude.{ℕ, Option, List, [], ◌∷◌}
use tallybook.Prelude.Bytes.{Bytes, ascii}
use tallybook.Prelude.Int.{ℤ}
use tallybook.Prelude.Result.{Result, ok, ◌>>=◌, or_fail}
use tallybook.Stellar.ScVal.{ScVal}
use tallybook.Stellar.Xdr.{
  X, XdrError, Strkey, scv_address, scv_i128, scv_map, map_entry, decode_address, decode_bytes,
  decode_i128, decode_u32,
}

-- The map that is signed, its keys in order.
abbrev pub commitment_val : ScVal → ScVal → Bytes → ScVal
commitment_val amount channel network = scv_map (
    map_entry (ascii "amount") amount
    ∷ map_entry (ascii "channel") channel
    ∷ map_entry (ascii "domain") (ScVal.symbol (ascii "chancmmt"))
    ∷ map_entry (ascii "network") (ScVal.bytes network)
    ∷ [])

pub build_commitment :
    Strkey → (ScVal → Option Bytes) → (Bytes → Bytes) → Bytes → Bytes → Option ℤ → X Bytes
build_commitment strkey marshal network_id contract passphrase amount = do
  amount_val ← scv_i128 amount
  channel_val ← scv_address strkey contract
  or_fail (marshal (commitment_val amount_val channel_val (network_id passphrase)))
      XdrError.marshal_failed

settle_or_close_args : Option ℤ → Bytes → X (List ScVal)
settle_or_close_args amount sig = do
  amount_arg ← scv_i128 amount
  ok (amount_arg ∷ ScVal.bytes sig ∷ [])

module _ (call : Bytes → List ScVal → Option ScVal) where
  abbrev invoke_channel : Bytes → List ScVal → X ScVal
  invoke_channel f args = or_fail (call f args) (XdrError.call_failed f)

  read_i128 : Bytes → X ℤ
  read_i128 function = do result ← invoke_channel function []; decode_i128 result

  pub deposited : X ℤ
  unfolding read_i128
  deposited = read_i128 (ascii "deposited")

  pub balance : X ℤ
  unfolding read_i128
  balance = read_i128 (ascii "balance")

  pub withdrawn : X ℤ
  unfolding read_i128
  withdrawn = read_i128 (ascii "withdrawn")

  pub refund_waiting_period : X ℕ
  refund_waiting_period = do
    result ← invoke_channel (ascii "refund_waiting_period") []
    decode_u32 result

  pub prepare_commitment : Option ℤ → X Bytes
  prepare_commitment amount = do
    amount_arg ← scv_i128 amount
    result ← invoke_channel (ascii "prepare_commitment") (amount_arg ∷ [])
    decode_bytes result

  pub top_up : Option ℤ → X (Unit {0})
  top_up amount = do
    amount_arg ← scv_i128 amount
    result ← invoke_channel (ascii "top_up") (amount_arg ∷ [])
    ok tt

  pub settle : Option ℤ → Bytes → X (Unit {0})
  unfolding settle_or_close_args
  settle amount sig = do
    args ← settle_or_close_args amount sig
    result ← invoke_channel (ascii "settle") args
    ok tt

  pub close : Option ℤ → Bytes → X (Unit {0})
  unfolding settle_or_close_args
  close amount sig = do
    args ← settle_or_close_args amount sig
    result ← invoke_channel (ascii "close") args
    ok tt

  pub close_start : X (Unit {0})
  close_start = do result ← invoke_channel (ascii "close_start") []; ok tt

  pub refund : X (Unit {0})
  refund = do result ← invoke_channel (ascii "refund") []; ok tt

module _ (strkey : Strkey) (call : Bytes → List ScVal → Option ScVal) where
  read_address : Bytes → X Bytes
  read_address function = do result ← invoke_channel call function []; decode_address strkey result

  pub token_of : X Bytes
  unfolding read_address
  token_of = read_address (ascii "token")

  pub from_of : X Bytes
  unfolding read_address
  from_of = read_address (ascii "from")

  pub to_of : X Bytes
  unfolding read_address
  to_of = read_address (ascii "to")
