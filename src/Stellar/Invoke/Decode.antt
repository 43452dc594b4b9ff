-- ===== src/Stellar/Invoke/Decode.antt =====
-- internal/stellar/invoke.go: the transaction, the helpers that build its parts and the ones that
-- read what comes back; and `MarshalScValBase64` and its inverse of internal/stellar/xdr.go. The
-- SDK's codecs, base64 and `fmt.Sscanf` are the parameter `Codecs`; `D` is the SDK's
-- `SorobanTransactionData`, which is only passed on.
use tallybook.Prelude.{
  ℕ, ◌+◌, ◌%◌, ◌^◌, Option, none, some, List, [], ◌∷◌, length, ◌==◌, if◌then◌else◌,
}
use tallybook.Prelude.Bytes.{Bytes}
use tallybook.Prelude.Int.{ℤ, pos}
use tallybook.Prelude.Result.{Result, ok, err}
use tallybook.Prelude.Text.{is_empty}
use tallybook.Stellar.ScVal.{ScVal}
use tallybook.Stellar.Xdr.{X, XdrError, Version, to_int64, to_uint64, sc_address}
use tallybook.Stellar.Auth.{ContractCall, AuthEntry, Sdk}
use tallybook.Stellar.Invoke.Node.{
  InvokeError, bad_account, bad_contract, bad_auth_entry, bad_meta, no_return_value,
  bad_resource_fee,
}

-- `xdr.Operation` with an InvokeHostFunctionOp that invokes a contract.
pub record Operation : Type 0 where
  pub call : ContractCall
  pub auth : List AuthEntry

-- `xdr.Transaction` without preconditions and memo; its extension is version 1 where it has data.
pub record Transaction (D : Type 0) : Type 0 where
  pub source : Bytes
  pub fee : ℕ
  pub seq_num : ℤ
  pub operations : List Operation
  pub data_ext : Option D

-- `xdr.TransactionMeta`: the pointers of its versions 3 and 4, and behind them `SorobanMeta`, whose
-- return value is a pointer in version 4.
pub record Meta : Type 0 where
  pub v3 : Option (Option ScVal)
  pub v4 : Option (Option (Option ScVal))

pub record Codecs (D : Type 0) : Type 0 where
  pub auth : Sdk
  pub base64_encode : Bytes → Bytes
  pub base64_decode : Bytes → Option Bytes
  pub marshal_sc_val : ScVal → Option Bytes
  pub unmarshal_sc_val : Bytes → Option ScVal
  pub unmarshal_auth : Bytes → Option AuthEntry
  pub unmarshal_data : Bytes → Option D
  pub unmarshal_meta : Bytes → Option Meta
  pub unmarshal_account : Bytes → Option (Option ℤ)
  pub marshal_account_key : Bytes → Option Bytes
  pub marshal_envelope : Transaction D → List Bytes → Option Bytes
  pub hash_transaction : Transaction D → Bytes → Option Bytes
  pub scan_int : Bytes → Option ℤ

abbrev pub base_fee : ℕ
base_fee = 100

-- `xdr.SequenceNumber(seqNum + 1)` of an int64.
unfoldable pub next_sequence : ℤ → ℤ
unfolding to_int64 to_uint64
next_sequence seq = to_int64 ((to_uint64 seq + 1) % 2 ^ 64)

-- `xdr.Uint32(baseFee + minResourceFee)` of an int64.
unfoldable pub fee_of : ℤ → ℕ
unfolding to_uint64
fee_of min_resource_fee = (to_uint64 min_resource_fee + base_fee) % 2 ^ 32

account_of : Bytes → Option (Version × Bytes) → Result InvokeError Bytes
account_of address none = err (bad_account address)
account_of address (some (Version.account, raw)) =
    if length raw == 32 then ok raw else err (bad_account address)
account_of address (some (Version.contract, raw)) = err (bad_account address)
account_of address (some (Version.other t, raw)) = err (bad_account address)

module _ {D : Type 0} (codecs : Codecs D) where
  -- `accountIDFromAddress`, and `muxedAccount`, which has the same key.
  unfoldable pub account_id : Bytes → Result InvokeError Bytes
  unfolding account_of
  account_id address = account_of address (codecs.auth.strkey.decode_any address)

  unfoldable pub muxed_account : Bytes → Result InvokeError Bytes
  unfolding account_id
  muxed_account address = account_id address

  -- `buildContractCallOperation`
  unfoldable pub build_operation :
      Bytes → Bytes → List ScVal → List AuthEntry → Result InvokeError Operation
  unfolding sc_address
  build_operation contract_id function args auth =
      elim (sc_address codecs.auth.strkey contract_id) [
        | err e ↦ err (bad_contract e)
        | ok callee ↦ ok (record {
          call = record { contract = callee; function = function; args = args };
          auth = auth;
        })
      ]

  -- `MarshalScValBase64` and `UnmarshalScValBase64`
  unfoldable pub marshal_sc_val_base64 : ScVal → X Bytes
  marshal_sc_val_base64 v = elim (codecs.marshal_sc_val v) [
    | none ↦ err XdrError.marshal_failed
    | some b ↦ ok (codecs.base64_encode b)
  ]

  unmarshal_sc_val : Option Bytes → X ScVal
  unmarshal_sc_val none = err XdrError.bad_base64
  unmarshal_sc_val (some b) = elim (codecs.unmarshal_sc_val b) [
    | none ↦ err XdrError.bad_sc_val
    | some v ↦ ok v
  ]

  unfoldable pub unmarshal_sc_val_base64 : Bytes → X ScVal
  unfolding unmarshal_sc_val
  unmarshal_sc_val_base64 text = unmarshal_sc_val (codecs.base64_decode text)

  unmarshal_entry : Option Bytes → Result InvokeError AuthEntry
  unmarshal_entry none = err bad_auth_entry
  unmarshal_entry (some raw) = elim (codecs.unmarshal_auth raw) [
    | none ↦ err bad_auth_entry
    | some e ↦ ok e
  ]

  cons_entry :
      Result InvokeError AuthEntry
      → Result InvokeError (List AuthEntry)
      → Result InvokeError (List AuthEntry)
  cons_entry (err x) rest = err x
  cons_entry (ok e) (err x) = err x
  cons_entry (ok e) (ok es) = ok (e ∷ es)

  unfoldable pub decode_auth_entries : List Bytes → Result InvokeError (List AuthEntry)
  unfolding unmarshal_entry cons_entry
  decode_auth_entries [] = ok []
  decode_auth_entries (b64 ∷ entries) =
      cons_entry (unmarshal_entry (codecs.base64_decode b64)) (decode_auth_entries entries)

  -- The switch on a settled transaction's meta.
  return_value_v4 : Option (Option (Option ScVal)) → Result InvokeError ScVal
  return_value_v4 none = err no_return_value
  return_value_v4 (some none) = err no_return_value
  return_value_v4 (some (some none)) = err no_return_value
  return_value_v4 (some (some (some v))) = ok v

  unfoldable pub return_value :
      Option (Option ScVal) → Option (Option (Option ScVal)) → Result InvokeError ScVal
  unfolding return_value_v4
  return_value none v4 = return_value_v4 v4
  return_value (some none) v4 = return_value_v4 v4
  return_value (some (some v)) v4 = ok v

  meta_value : Option Meta → Result InvokeError ScVal
  unfolding return_value
  meta_value none = err bad_meta
  meta_value (some meta) = return_value meta.v3 meta.v4

  meta_of : Option Bytes → Option Meta
  meta_of none = none
  meta_of (some raw) = codecs.unmarshal_meta raw

  unfoldable pub decode_return_value : Bytes → Result InvokeError ScVal
  unfolding meta_value meta_of
  decode_return_value text = meta_value (meta_of (codecs.base64_decode text))

  -- `minResourceFee`, 0 where the simulation has none.
  unfoldable pub resource_fee : Bytes → Result InvokeError ℤ
  unfolding is_empty
  resource_fee text =
      if is_empty text
      then ok (pos 0)
      else elim (codecs.scan_int text) [ none ↦ err (bad_resource_fee text) | some v ↦ ok v ]
