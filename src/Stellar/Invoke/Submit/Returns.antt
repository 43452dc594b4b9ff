-- ===== src/Stellar/Invoke/Submit/Returns.antt =====
-- internal/stellar/invoke.go: `invokeAndSubmit` always comes back.
use tallybook.Prelude.{◌≡◌, refl, ap, subst, ◌||◌, some, List, arith, Bool-cases, inl, inr}
use tallybook.Prelude.Bytes.{Bytes, bytes_eq}
use tallybook.Prelude.Result.{Result, ok, err}
use tallybook.Stellar.ScVal.{ScVal}
use tallybook.Stellar.Rpc.{CallError}
use tallybook.Stellar.Rpc.Types.{
  SendTransactionResult, GetTransactionResult, send_transaction_status_error,
  send_transaction_status_pending, send_transaction_status_duplicate,
}
use tallybook.Stellar.Auth.{AuthEntry, Signer}
use tallybook.Stellar.Invoke.Node.{Node, InvokeError}
use tallybook.Stellar.Invoke.Decode.{Codecs}
use tallybook.Stellar.Invoke.Poll.{Polled, poll_transaction}
use tallybook.Stellar.Invoke.Poll.Settles.{IsClock, poll_transaction_terminates}
use tallybook.Stellar.Invoke.Prepare.{Plan, plan, sign_plan}
use tallybook.Stellar.Invoke.Submit.{
  Outcome, settled_value, value_of, await, after_send, send_envelope, submit_plan, invoke_with_auth,
}

module _ {D W : Type 0} (codecs : Codecs D) (node : Node W) (clock : IsClock node) where
  abbrev Returns : Outcome W → Type 0
  Returns o = (r : Result InvokeError ScVal) × (o.result ≡ some r)

  await-Returns :
      (hash : Bytes) (p : Polled W) (r : Result InvokeError GetTransactionResult)
      → p.1 ≡ some r
      → Returns (await codecs node hash p)
  unfolding await value_of
  await-Returns hash p (ok r) h =
      (settled_value codecs node hash r, ap (value_of codecs node hash) h)
  await-Returns hash p (err e) h = (err e, ap (value_of codecs node hash) h)

  after_send-Returns :
      (w : W) (r : Result CallError SendTransactionResult) → Returns (after_send codecs node w r)
  unfolding after_send
  after_send-Returns w (err e) = (_, refl)
  after_send-Returns w (ok a) =
      let (r, e) = poll_transaction_terminates node clock a.hash w in
      let polled : Returns (await codecs node a.hash (poll_transaction node a.hash w)) =
        await-Returns a.hash (poll_transaction node a.hash w) r e in
      elim (Bool-cases (bytes_eq a.status send_transaction_status_error)) [
        | inl e ↦ rw (e, after_send) ((_, refl))
        | inr e ↦
            elim (Bool-cases (
              bytes_eq a.status send_transaction_status_pending
              || bytes_eq a.status send_transaction_status_duplicate)) [
                | inl p ↦
                    let k : await codecs node a.hash (poll_transaction node a.hash w)
                        ≡ after_send codecs node w (ok a) =
                      ground arith in
                    subst Returns k polled
                | inr p ↦ rw (e, after_send, p) ((_, refl))
              ]
      ]

  send-Returns : (w : W) (r : Result InvokeError Bytes) → Returns (send_envelope codecs node w r)
  unfolding send_envelope
  send-Returns w (err e) = (_, refl)
  send-Returns w (ok b) = after_send-Returns (node.send w b).0 (node.send w b).1

  submit-Returns :
      (passphrase : Bytes) (signer : Signer) (q : W × Result InvokeError Plan)
      → Returns (submit_plan codecs node passphrase signer q)
  unfolding submit_plan
  submit-Returns passphrase signer (w, err e) = (_, refl)
  submit-Returns passphrase signer (w, ok p) =
      send-Returns w (sign_plan codecs node passphrase signer p)

  -- Over a clock that does not run backwards and pauses that take the poll interval, a submission
  -- comes back with a value or an error, whatever the node answers: the seventeen rounds that the
  -- polling is given are enough.
  pub invoke_with_auth_total :
      (passphrase : Bytes) (signer : Signer) (contract_id function : Bytes) (args : List ScVal)
      (extra : List AuthEntry) (w : W)
      → (r : Result InvokeError ScVal) × ((invoke_with_auth codecs node passphrase signer
            contract_id function args extra w).result
          ≡ some r)
  unfolding invoke_with_auth
  invoke_with_auth_total passphrase signer contract_id function args extra w =
      submit-Returns passphrase signer
        (plan codecs node signer.address contract_id function args extra w)
