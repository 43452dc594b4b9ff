-- ===== src/Stellar/Invoke/Simulate.antt =====
-- internal/stellar/invoke.go: `SimulateCall`, `fetchSequenceNumber`, and a simulation of a
-- transaction that is not signed.
use tallybook.Prelude.{Option, none, some, List, [], ◌∷◌, if◌then◌else◌}
use tallybook.Prelude.Bytes.{Bytes}
use tallybook.Prelude.Int.{ℤ, pos}
use tallybook.Prelude.Result.{Result, ok, err, or_fail}
use tallybook.Prelude.Text.{is_empty}
use tallybook.Stellar.ScVal.{ScVal}
use tallybook.Stellar.Rpc.{CallError}
use tallybook.Stellar.Rpc.Types.{
  LedgerEntryResult, GetLedgerEntriesResult, SimulateHostFunctionResult, SimulateTransactionResult,
}
use tallybook.Stellar.Invoke.Node.{
  Node, InvokeError, Io, ◌>>=◌, then_io, lift, marshal_failed, fetch_failed, account_not_found,
  bad_ledger_entry, not_an_account, simulate_failed, simulation_failed, no_results, bad_sc_val,
}
use tallybook.Stellar.Invoke.Decode.{
  Operation, Transaction, Codecs, base_fee, account_id, muxed_account, build_operation,
  unmarshal_sc_val_base64,
}

-- A simulation with its first result.
pub record Simulated : Type 0 where
  pub result : SimulateTransactionResult
  pub first : SimulateHostFunctionResult

first_result :
    SimulateTransactionResult → List SimulateHostFunctionResult → Result InvokeError Simulated
first_result r [] = err no_results
first_result r (first ∷ rest) = ok (record { result = r; first = first })

-- What is checked of a simulation, by both passes.
unfoldable pub check_simulation :
    Result CallError SimulateTransactionResult → Result InvokeError Simulated
unfolding first_result is_empty
check_simulation (err e) = err (simulate_failed e)
check_simulation (ok r) =
    if is_empty r.error then first_result r r.results else err (simulation_failed r.error)

module _ {D W : Type 0} (codecs : Codecs D) (node : Node W) where
  -- The placeholder transaction.
  abbrev pub sim_transaction : Bytes → ℤ → Operation → Transaction D
  sim_transaction source seq op = record {
    source = source;
    fee = base_fee;
    seq_num = seq;
    operations = op ∷ [];
    data_ext = none;
  }

  -- `marshalUnsignedEnvelope`
  unfoldable pub marshal_unsigned : Transaction D → Result InvokeError Bytes
  marshal_unsigned tx = elim (codecs.marshal_envelope tx []) [
    | none ↦ err marshal_failed
    | some b ↦ ok (codecs.base64_encode b)
  ]

  simulate_envelope : Bytes → Io W Simulated
  unfolding check_simulation
  simulate_envelope envelope w =
      let (w', r) = node.simulate w (record {
        transaction = envelope;
        resource_config = none;
        xdr_format = [];
        auth_mode = [];
      }) in
      (w', check_simulation r)

  unfoldable pub simulate : Transaction D → Io W Simulated
  unfolding simulate_envelope marshal_unsigned then_io
  simulate tx = lift (marshal_unsigned tx) >>= simulate_envelope

  decode_first : Simulated → Result InvokeError ScVal
  unfolding unmarshal_sc_val_base64
  decode_first s = elim (unmarshal_sc_val_base64 codecs s.first.xdr) [
    | err e ↦ err (bad_sc_val e)
    | ok v ↦ ok v
  ]

  unfoldable pub simulate_call : Bytes → Bytes → Bytes → List ScVal → Io W ScVal
  unfolding simulate decode_first muxed_account build_operation then_io
  simulate_call source contract_id function args = do
    muxed ← lift (muxed_account codecs source)
    op ← lift (build_operation codecs contract_id function args [])
    s ← simulate (sim_transaction muxed (pos 1) op)
    lift (decode_first s)

  entry_sequence : Option (Option ℤ) → Result InvokeError ℤ
  entry_sequence none = err bad_ledger_entry
  entry_sequence (some none) = err not_an_account
  entry_sequence (some (some seq)) = ok seq

  entry_account : Option Bytes → Option (Option ℤ)
  entry_account none = none
  entry_account (some raw) = codecs.unmarshal_account raw

  first_entry : List LedgerEntryResult → Result InvokeError ℤ
  unfolding entry_sequence entry_account
  first_entry [] = err account_not_found
  first_entry (e ∷ entries) = entry_sequence (entry_account (codecs.base64_decode e.xdr))

  unfoldable pub sequence_of : Result CallError GetLedgerEntriesResult → Result InvokeError ℤ
  unfolding first_entry
  sequence_of (err e) = err (fetch_failed e)
  sequence_of (ok r) = first_entry r.entries

  query_account : Bytes → Io W ℤ
  unfolding sequence_of
  query_account key w =
      let (w', r) = node.ledger_entries w (codecs.base64_encode key ∷ []) in (w', sequence_of r)

  unfoldable pub fetch_sequence_number : Bytes → Io W ℤ
  unfolding query_account account_id then_io
  fetch_sequence_number account = do
    raw ← lift (account_id codecs account)
    key ← lift (or_fail (codecs.marshal_account_key raw) marshal_failed)
    query_account key
