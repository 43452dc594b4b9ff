-- ===== src/Stellar/Invoke/Prepare.antt =====
-- internal/stellar/invoke.go: `invokeAndSubmit` up to the signed envelope.
pub mod Enveloped
use tallybook.Prelude.{ℕ, Option, none, some, List, [], ◌∷◌}
use tallybook.Prelude.Bytes.{Bytes}
use tallybook.Prelude.Int.{ℤ}
use tallybook.Prelude.Result.{Result, ok, err, or_fail}
use tallybook.Stellar.ScVal.{ScVal}
use tallybook.Stellar.Rpc.Types.{SimulateTransactionResult}
use tallybook.Stellar.Auth.{AuthEntry, Signer, merge_auth_entries}
use tallybook.Stellar.Invoke.Node.{
  Node, InvokeError, Io, ◌>>=◌, then_io, lift, bad_transaction_data, hash_failed, sign_failed,
  marshal_failed,
}
use tallybook.Stellar.Invoke.Decode.{
  Operation, Transaction, Codecs, next_sequence, fee_of, muxed_account, build_operation,
  decode_auth_entries, resource_fee,
}
use tallybook.Stellar.Invoke.Simulate.{Simulated, sim_transaction, simulate, fetch_sequence_number}

-- What is known before the transaction is signed.
pub record Plan : Type 0 where
  pub source : Bytes
  pub seq_num : ℤ
  pub operation : Operation
  pub simulated : SimulateTransactionResult

module _ {D W : Type 0} (codecs : Codecs D) (node : Node W) where
  -- The second pass, where there is extra authorization; else the first one's result stands.
  unfoldable pub simulate_again : List AuthEntry → Transaction D → Simulated → Io W Simulated
  unfolding simulate
  simulate_again [] tx s = lift (ok s)
  simulate_again (e ∷ extra) tx s = simulate codecs node tx

  -- The part that depends on the account and on the operation without authorization.
  unfoldable pub plan_call :
      Bytes → Bytes → List ScVal → List AuthEntry → Bytes → ℤ → Operation → Io W Plan
  unfolding simulate simulate_again decode_auth_entries merge_auth_entries build_operation then_io
  plan_call contract_id function args extra source seq unsigned_op = do
    s ← simulate codecs node (sim_transaction codecs node source seq unsigned_op)
    recorded ← lift (decode_auth_entries codecs s.first.auth)
    op ← lift (
        build_operation codecs contract_id function args
          (merge_auth_entries codecs.auth recorded extra))
    final ← simulate_again extra (sim_transaction codecs node source seq op) s
    lift (ok (record { source = source; seq_num = seq; operation = op; simulated = final.result }))

  unfoldable pub plan : Bytes → Bytes → Bytes → List ScVal → List AuthEntry → Io W Plan
  unfolding plan_call fetch_sequence_number muxed_account next_sequence then_io
  plan address contract_id function args extra = do
    seq ← fetch_sequence_number codecs node address
    source ← lift (muxed_account codecs address)
    unsigned_op ← lift (build_operation codecs contract_id function args [])
    plan_call contract_id function args extra source (next_sequence seq) unsigned_op

  data_of : Option Bytes → Result InvokeError D
  data_of none = err bad_transaction_data
  data_of (some raw) = or_fail (codecs.unmarshal_data raw) bad_transaction_data

  -- The transaction that is submitted.
  abbrev pub final_transaction : Plan → D → ℤ → Transaction D
  final_transaction p ext min_fee = record {
    source = p.source;
    fee = fee_of min_fee;
    seq_num = p.seq_num;
    operations = p.operation ∷ [];
    data_ext = some ext;
  }

  -- Its hash for the network, the signature of that, and the envelope with the signature.
  sign_envelope : Bytes → Signer → Transaction D → Result InvokeError Bytes
  sign_envelope passphrase signer tx = elim (codecs.hash_transaction tx passphrase) [
    | none ↦ err hash_failed
    | some hash ↦ elim (signer.sign_decorated hash) [
      | none ↦ err sign_failed
      | some sig ↦ elim (codecs.marshal_envelope tx (sig ∷ [])) [
        | none ↦ err marshal_failed
        | some b ↦ ok (codecs.base64_encode b)
      ]
    ]
  ]

  with_fee : Bytes → Signer → Plan → D → Result InvokeError ℤ → Result InvokeError Bytes
  unfolding sign_envelope
  with_fee passphrase signer p ext (err e) = err e
  with_fee passphrase signer p ext (ok min_fee) =
      sign_envelope passphrase signer (final_transaction p ext min_fee)

  with_data : Bytes → Signer → Plan → Result InvokeError D → Result InvokeError Bytes
  unfolding with_fee resource_fee
  with_data passphrase signer p (err e) = err e
  with_data passphrase signer p (ok ext) =
      with_fee passphrase signer p ext (resource_fee codecs p.simulated.min_resource_fee)

  unfoldable pub sign_plan : Bytes → Signer → Plan → Result InvokeError Bytes
  unfolding with_data data_of
  sign_plan passphrase signer p =
      with_data passphrase signer p (data_of (codecs.base64_decode p.simulated.transaction_data))
