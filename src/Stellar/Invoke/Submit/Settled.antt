-- ===== src/Stellar/Invoke/Submit/Settled.antt =====
-- internal/stellar/invoke.go: what a value that `invokeAndSubmit` returns says.
use tallybook.Prelude.{
  ◌≡◌, ◌≢◌, ◌⊎◌, refl, sym, ap, subst, ◌∙◌, true, Option, none, some, List, arith, Bool-cases, inl,
  inr,
}
use tallybook.Prelude.Bytes.{Bytes, bytes_eq}
use tallybook.Prelude.Result.{Result, ok, err}
use tallybook.Stellar.ScVal.{ScVal}
use tallybook.Stellar.Rpc.{CallError}
use tallybook.Stellar.Rpc.Types.{
  SendTransactionResult, GetTransactionResult, send_transaction_status_error,
  send_transaction_status_pending, send_transaction_status_duplicate,
  get_transaction_status_success,
}
use tallybook.Stellar.Auth.{AuthEntry, Signer}
use tallybook.Stellar.Invoke.Node.{Node, InvokeError}
use tallybook.Stellar.Invoke.Decode.{Codecs, decode_return_value}
use tallybook.Stellar.Invoke.Poll.{Polled, poll_transaction}
use tallybook.Stellar.Invoke.Poll.Settles.{poll_transaction_ok}
use tallybook.Stellar.Invoke.Prepare.{Plan, plan, sign_plan}
use tallybook.Stellar.Invoke.Prepare.Enveloped.{Enveloped, sign_plan-Enveloped}
use tallybook.Stellar.Invoke.Planned.{Planned, plan-Planned}
use tallybook.Stellar.Invoke.Submit.{
  Outcome, settled_value, value_of, await, after_send, send_envelope, submit_plan, invoke_with_auth,
}

module _ {D W : Type 0} (codecs : Codecs D) (node : Node W) where
  -- The node took an envelope, later answered for the hash it gave that the transaction has settled
  -- with SUCCESS, and the value is the one in that answer's meta.
  pub record Confirmed (w : W) (envelope : Bytes) (o : Outcome W) (v : ScVal) : Type 0 where
    pub sent : W
    pub answer : SendTransactionResult
    pub taken : node.send w envelope ≡ (sent, ok answer)
    pub status :
        (bytes_eq answer.status send_transaction_status_pending ≡ true)
        ⊎ (bytes_eq answer.status send_transaction_status_duplicate ≡ true)
    pub hash : o.hash ≡ answer.hash
    pub before : W
    pub result : GetTransactionResult
    pub settled : node.transaction before answer.hash ≡ (o.world, ok result)
    pub success : bytes_eq result.status get_transaction_status_success ≡ true
    pub value : decode_return_value codecs result.result_meta_xdr ≡ ok v

  -- What was polled, of a value that came out of it.
  polled_value :
      (hash : Bytes) (o : Option (Result InvokeError GetTransactionResult)) (v : ScVal)
      → value_of codecs node hash o ≡ some (ok v)
      → (r : GetTransactionResult) × (o ≡ some (ok r))
        × (bytes_eq r.status get_transaction_status_success ≡ true)
        × (decode_return_value codecs r.result_meta_xdr ≡ ok v)
  unfolding value_of settled_value
  polled_value hash none v h = cc
  polled_value hash (some (err e)) v h = cc
  polled_value hash (some (ok r)) v h =
      elim (Bool-cases (bytes_eq r.status get_transaction_status_success)) [
        | inl b ↦ (r, refl, b, ground arith)
        | inr b ↦ ground arith
      ]

  await-value :
      (hash : Bytes) (p : Polled W)
      → ((await codecs node hash p).result ≡ value_of codecs node hash p.1)
        × ((await codecs node hash p).world ≡ p.0)
        × ((await codecs node hash p).hash ≡ hash)
  unfolding await
  await-value hash (w, o) = (refl, refl, refl)

  -- What was awaited, of a value that came out of it.
  await-Settles :
      (hash : Bytes) (w : W) (v : ScVal)
      → (await codecs node hash (poll_transaction node hash w)).result ≡ some (ok v)
      → (u : W) × (r : GetTransactionResult) × (node.transaction u hash
          ≡ ((await codecs node hash (poll_transaction node hash w)).world, ok r))
        × (bytes_eq r.status get_transaction_status_success ≡ true)
        × (decode_return_value codecs r.result_meta_xdr ≡ ok v)
  await-Settles hash w v h =
      let p = poll_transaction node hash w in
      let (a, b, c) = await-value hash p in
      let (r, e, s, d) = polled_value hash p.1 v (sym a ∙ h) in
      let q : p ≡ (p.0, some (ok r)) = ap (λ x. (p.0, x)) e in
      let (u, f, n) = poll_transaction_ok node hash w p.0 r q in
      (u, r, f ∙ ap (λ x. (x, ok r)) (sym b), s, d)

  -- The switch on the status of an answer lets two of them through.
  after_send-polls :
      (w : W) (a : SendTransactionResult) (v : ScVal)
      → (after_send codecs node w (ok a)).result ≡ some (ok v)
      → ((bytes_eq a.status send_transaction_status_pending ≡ true)
          ⊎ (bytes_eq a.status send_transaction_status_duplicate ≡ true))
        × (after_send codecs node w (ok a)
            ≡ await codecs node a.hash (poll_transaction node a.hash w))
  unfolding after_send
  after_send-polls w a v h = elim (Bool-cases (bytes_eq a.status send_transaction_status_error)) [
    | inl e ↦ ground arith
    | inr e ↦ elim (Bool-cases (bytes_eq a.status send_transaction_status_pending)) [
      | inl p ↦ (inl p, ground arith)
      | inr p ↦ elim (Bool-cases (bytes_eq a.status send_transaction_status_duplicate)) [
        | inl d ↦ (inr d, ground arith)
        | inr d ↦ ground arith
      ]
    ]
  ]

  await-Confirmed :
      (w w' : W) (envelope : Bytes) (a : SendTransactionResult) (v : ScVal)
      → node.send w envelope ≡ (w', ok a)
      → ((bytes_eq a.status send_transaction_status_pending ≡ true)
          ⊎ (bytes_eq a.status send_transaction_status_duplicate ≡ true))
      → (await codecs node a.hash (poll_transaction node a.hash w')).result ≡ some (ok v)
      → Confirmed w envelope (await codecs node a.hash (poll_transaction node a.hash w')) v
  await-Confirmed w w' envelope a v e s h =
      let (u, r, t, x, d) = await-Settles a.hash w' v h in
      record {
        sent = w';
        answer = a;
        taken = e;
        status = s;
        hash = (await-value a.hash (poll_transaction node a.hash w')).2;
        before = u;
        result = r;
        settled = t;
        success = x;
        value = d;
      }

  not_sent :
      (w : W) (e : CallError) (v : ScVal) → (after_send codecs node w (err e)).result ≢ some (ok v)
  unfolding after_send
  not_sent w e v k = cc

  after_send-Confirmed :
      (w : W) (envelope : Bytes) (q : W × Result CallError SendTransactionResult) (v : ScVal)
      → node.send w envelope ≡ q
      → (after_send codecs node q.0 q.1).result ≡ some (ok v)
      → Confirmed w envelope (after_send codecs node q.0 q.1) v
  after_send-Confirmed w envelope (w', err x) v e h = absurd (not_sent w' x v h)
  after_send-Confirmed w envelope (w', ok a) v e h =
      let (s, k) = after_send-polls w' a v h in
      subst (λ o. Confirmed w envelope o v) (sym k)
        (await-Confirmed w w' envelope a v e s (ap (λ (o : Outcome W). o.result) (sym k) ∙ h))

  module _ (passphrase : Bytes) (signer : Signer) (contract_id function : Bytes) (args : List ScVal)
      (extra : List AuthEntry) (w : W) where
    -- The way of a value from the call to the transaction that settled.
    pub record Settled (o : Outcome W) (v : ScVal) : Type 0 where
      pub planning : W
      pub made : Plan
      pub planned :
          Planned codecs node contract_id function args extra signer.address w planning made
      pub envelope : Bytes
      pub enveloped : Enveloped codecs node passphrase signer made envelope
      pub confirmed : Confirmed planning envelope o v

    submit_envelope :
        (w1 : W) (p : Plan) (r : Result InvokeError Bytes) (v : ScVal)
        → plan codecs node signer.address contract_id function args extra w ≡ (w1, ok p)
        → sign_plan codecs node passphrase signer p ≡ r
        → (send_envelope codecs node w1 r).result ≡ some (ok v)
        → Settled (send_envelope codecs node w1 r) v
    unfolding send_envelope
    submit_envelope w1 p (err x) v e s h = cc
    submit_envelope w1 p (ok b) v e s h = record {
      planning = w1;
      made = p;
      planned = plan-Planned codecs node contract_id function args extra signer.address w w1 p e;
      envelope = b;
      enveloped = sign_plan-Enveloped codecs node passphrase signer p b s;
      confirmed = after_send-Confirmed w1 b (node.send w1 b) v refl h;
    }

    submit-Settled :
        (q : W × Result InvokeError Plan) (v : ScVal)
        → plan codecs node signer.address contract_id function args extra w ≡ q
        → (submit_plan codecs node passphrase signer q).result ≡ some (ok v)
        → Settled (submit_plan codecs node passphrase signer q) v
    unfolding submit_plan
    submit-Settled (w1, err x) v e h = cc
    submit-Settled (w1, ok p) v e h =
        submit_envelope w1 p (sign_plan codecs node passphrase signer p) v e refl h

    -- A value that a submission returns is read from the meta of a transaction that the node reports
    -- as settled with SUCCESS under the hash that is returned, which is the hash in the node's answer
    -- to the envelope that was sent; the code does not compare it with the hash that it signed. The
    -- envelope holds one transaction with one signature: the call with the recorded and the extra
    -- authorization merged, from the signer's account, with the account's next sequence number, and
    -- with the resources and the fee, its lower 32 bits, of the last simulation. Where there is no
    -- extra authorization, the last simulation is the one that recorded; where there is, it is
    -- another one after that, of this very operation. The node took the envelope as pending or as a
    -- duplicate.
    pub invoke_with_auth-Settled :
        (v : ScVal)
        → (invoke_with_auth codecs node passphrase signer contract_id function args extra w).result
          ≡ some (ok v)
        → Settled
            (invoke_with_auth codecs node passphrase signer contract_id function args extra w)
            v
    unfolding invoke_with_auth
    invoke_with_auth-Settled v h =
        submit-Settled (plan codecs node signer.address contract_id function args extra w) v refl h
