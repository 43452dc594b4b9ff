-- ===== src/Stellar/Invoke/Submit.antt =====
-- internal/stellar/invoke.go: `invokeAndSubmit`, `InvokeAndSubmit` and `InvokeAndSubmitWithAuth`.
pub mod Settled
pub mod Returns
use tallybook.Prelude.{Bool, true, false, ◌||◌, Option, none, some, List, [], ◌∷◌, if◌then◌else◌}
use tallybook.Prelude.Bytes.{Bytes, bytes_eq}
use tallybook.Prelude.Result.{Result, ok, err}
use tallybook.Stellar.ScVal.{ScVal}
use tallybook.Stellar.Rpc.{CallError}
use tallybook.Stellar.Rpc.Types.{
  SendTransactionResult, GetTransactionResult, send_transaction_status_error,
  send_transaction_status_pending, send_transaction_status_duplicate,
  get_transaction_status_success,
}
use tallybook.Stellar.Auth.{AuthEntry, Signer}
use tallybook.Stellar.Invoke.Node.{
  Node, InvokeError, submit_failed, rejected, unexpected_status, not_settled, transaction_failed,
}
use tallybook.Stellar.Invoke.Decode.{Codecs, decode_return_value}
use tallybook.Stellar.Invoke.Poll.{Polled, poll_transaction}
use tallybook.Stellar.Invoke.Prepare.{Plan, plan, sign_plan}

-- What the code returns, and the world after it: the hash is empty before the submission. A polling
-- loop that is cut off has no result.
pub record Outcome (W : Type 0) : Type 0 where
  pub world : W
  pub hash : Bytes
  pub result : Option (Result InvokeError ScVal)

module _ {D W : Type 0} (codecs : Codecs D) (node : Node W) where
  -- What a settled transaction gives.
  unfoldable pub settled_value : Bytes → GetTransactionResult → Result InvokeError ScVal
  unfolding bytes_eq decode_return_value
  settled_value hash r =
      if bytes_eq r.status get_transaction_status_success
      then decode_return_value codecs r.result_meta_xdr
      else err (transaction_failed hash r.result_xdr)

  value_of :
      Bytes → Option (Result InvokeError GetTransactionResult) → Option (Result InvokeError ScVal)
  unfolding settled_value
  value_of hash none = none
  value_of hash (some (err e)) = some (err e)
  value_of hash (some (ok r)) = some (settled_value hash r)

  await : Bytes → Polled W → Outcome W
  unfolding value_of
  await hash (w, o) = record { world = w; hash = hash; result = value_of hash o }

  -- The switch on the submission's status.
  after_send : W → Result CallError SendTransactionResult → Outcome W
  unfolding bytes_eq await poll_transaction
  after_send w (err e) = record { world = w; hash = []; result = some (err (submit_failed e)) }
  after_send w (ok r) =
      if bytes_eq r.status send_transaction_status_error
      then record { world = w; hash = r.hash; result = some (err (rejected r.error_result_xdr)) }
      else if bytes_eq r.status send_transaction_status_pending
          || bytes_eq r.status send_transaction_status_duplicate
      then await r.hash (poll_transaction node r.hash w)
      else record { world = w; hash = r.hash; result = some (err (unexpected_status r.status)) }

  send_envelope : W → Result InvokeError Bytes → Outcome W
  unfolding after_send
  send_envelope w (err e) = record { world = w; hash = []; result = some (err e) }
  send_envelope w (ok envelope) = let (w', r) = node.send w envelope in after_send w' r

  submit_plan : Bytes → Signer → W × Result InvokeError Plan → Outcome W
  unfolding send_envelope sign_plan
  submit_plan passphrase signer (w, err e) = record { world = w; hash = []; result = some (err e) }
  submit_plan passphrase signer (w, ok p) =
      send_envelope w (sign_plan codecs node passphrase signer p)

  unfoldable pub invoke_with_auth :
      Bytes → Signer → Bytes → Bytes → List ScVal → List AuthEntry → W → Outcome W
  unfolding submit_plan plan
  invoke_with_auth passphrase signer contract_id function args extra w =
      submit_plan passphrase signer
        (plan codecs node signer.address contract_id function args extra w)

  unfoldable pub invoke_and_submit : Bytes → Signer → Bytes → Bytes → List ScVal → W → Outcome W
  unfolding invoke_with_auth
  invoke_and_submit passphrase signer contract_id function args w =
      invoke_with_auth passphrase signer contract_id function args [] w
