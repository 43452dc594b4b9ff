-- ===== src/Stellar/Invoke/Poll/Settles.antt =====
-- internal/stellar/invoke.go: the polling loop comes to an end, and what its result says.
use tallybook.Prelude.{
  ℕ, zero, suc, ◌+◌, ◌*◌, ◌≤◌, ◌<◌, ◌≡◌, ◌≢◌, ◌⊎◌, refl, sym, ap, ◌∙◌, subst, Bool, true, false,
  some, arith, Bool-cases, inl, inr, ltb,
}
use tallybook.Prelude.Bytes.{Bytes, bytes_eq}
use tallybook.Prelude.Result.{Result, ok, err}
use tallybook.Stellar.Rpc.{CallError}
use tallybook.Stellar.Rpc.Types.{GetTransactionResult, get_transaction_status_not_found}
use tallybook.Stellar.Invoke.Node.{Node, InvokeError}
use tallybook.Stellar.Invoke.Poll.{
  poll_interval, poll_timeout, Polled, Round, done, again, after_pause, after_answer, poll_round,
  poll_loop, poll_transaction,
}

module _ {W : Type 0} (node : Node W) where
  -- The clock is monotonic: a request does not set it back, and a pause that runs to its end takes
  -- the interval.
  pub record IsClock : Type 0 where
    pub steady : (w : W) (hash : Bytes) → node.now w ≤ node.now (node.transaction w hash).0
    pub ticks :
        (w : W) → (node.pause w).1 ≡ true → node.now w + poll_interval ≤ node.now (node.pause w).0

  after_pause-again :
      (p : W × Bool) (w : W) → after_pause node p ≡ again w → (p.1 ≡ true) × (p.0 ≡ w)
  unfolding after_pause
  after_pause-again (v, true) w e = (refl, cc)
  after_pause-again (v, false) w e = cc

  after_pause-not_ok :
      (p : W × Bool) (w : W) (r : GetTransactionResult) → after_pause node p ≢ done w (ok r)
  unfolding after_pause
  after_pause-not_ok (v, true) w r e = cc
  after_pause-not_ok (v, false) w r e = cc

  -- A round that goes on has paused, before the deadline.
  again_lem :
      (deadline : ℕ) (p : W × Result CallError GetTransactionResult) (w : W)
      → after_answer node deadline p ≡ again w
      → (node.now p.0 ≤ deadline) × (after_pause node (node.pause p.0) ≡ again w)
  unfolding after_answer
  again_lem deadline (v, err x) w e = cc
  again_lem deadline (v, ok r) w e =
      elim (Bool-cases (bytes_eq r.status get_transaction_status_not_found)) [
        | inr b ↦ ground arith
        | inl b ↦ elim (Bool-cases (ltb deadline (node.now v))) [
          | inl l ↦ ground arith
          | inr l ↦ (ground arith, ground arith)
        ]
      ]

  -- A round that ends with a result has it from the node, and it is not NOT_FOUND.
  done_lem :
      (deadline : ℕ) (p : W × Result CallError GetTransactionResult) (w : W)
      (r : GetTransactionResult)
      → after_answer node deadline p ≡ done w (ok r)
      → (p ≡ (w, ok r)) × (bytes_eq r.status get_transaction_status_not_found ≡ false)
  unfolding after_answer
  done_lem deadline (v, err x) w r e = cc
  done_lem deadline (v, ok q) w r e =
      elim (Bool-cases (bytes_eq q.status get_transaction_status_not_found)) [
        | inr b ↦
            let k : done v (ok q) ≡ done w (ok r) = ground arith in
            let s : q ≡ r = cc in (cc, rw (sym s) b)
        | inl b ↦ elim (Bool-cases (ltb deadline (node.now v))) [
          | inl l ↦ ground arith
          | inr l ↦
              let k : after_pause node (node.pause v) ≡ done w (ok r) = ground arith in
              absurd (after_pause-not_ok (node.pause v) w r k)
        ]
      ]

  module _ (deadline : ℕ) (hash : Bytes) where
    -- The loop on one more round, by how the round ends.
    loop-done :
        (fuel : ℕ) (w v : W) (r : Result InvokeError GetTransactionResult)
        → poll_round node deadline hash w ≡ done v r
        → poll_loop node (suc fuel) deadline hash w ≡ (v, some r)
    unfolding poll_loop
    loop-done fuel w v r e = rw (e, poll_loop) refl

    loop-again :
        (fuel : ℕ) (w v : W)
        → poll_round node deadline hash w ≡ again v
        → poll_loop node (suc fuel) deadline hash w ≡ poll_loop node fuel deadline hash v
    unfolding poll_loop
    loop-again fuel w v e = rw (e, poll_loop) refl

    Round-cases :
        (q : Round W)
        → ((v : W) × (r : Result InvokeError GetTransactionResult) × (q ≡ done v r))
          ⊎ ((v : W) × (q ≡ again v))
    Round-cases (done v r) = inl (v, r, refl)
    Round-cases (again v) = inr (v, refl)

    again_later :
        IsClock
        → (w v : W) → poll_round node deadline hash w ≡ again v
        → (node.now w ≤ deadline) × (node.now w + poll_interval ≤ node.now v)
    unfolding poll_round
    again_later c w v e =
        let u = (node.transaction w hash).0 in
        let (l, p) = again_lem deadline (node.transaction w hash) v e in
        let (t, s) = after_pause-again (node.pause u) v p in
        let x = c.steady w hash in
        let y : node.now u + poll_interval ≤ node.now v =
          subst (λ z. node.now u + poll_interval ≤ node.now z) s (c.ticks u t) in
        (omega (arith, l, x), omega (arith, x, y))

    loop_ends :
        IsClock
        → (fuel : ℕ) (w : W) → deadline < node.now w + fuel * poll_interval
        → (r : Result InvokeError GetTransactionResult) × ((poll_loop node
              (suc fuel)
              deadline
              hash
              w).1
            ≡ some r)
    unfolding poll_loop
    loop_ends c zero w h = elim (Round-cases (poll_round node deadline hash w)) [
      | inl (v, r, e) ↦ (r, ap (λ (p : Polled W). p.1) (loop-done 0 w v r e))
      | inr (v, e) ↦ let (l, x) = again_later c w v e in absurd (omega (arith, h, l))
    ]
    loop_ends c (suc fuel) w h = elim (Round-cases (poll_round node deadline hash w)) [
      | inl (v, r, e) ↦ (r, ap (λ (p : Polled W). p.1) (loop-done (suc fuel) w v r e))
      | inr (v, e) ↦
          let (l, x) = again_later c w v e in
          let (r, k) = loop_ends c fuel v (omega (arith, h, x)) in
          (r, ap (λ (p : Polled W). p.1) (loop-again (suc fuel) w v e) ∙ k)
    ]

    -- A result of the loop is an answer of the node about the hash that is not NOT_FOUND.
    loop_ok :
        (fuel : ℕ) (w v : W) (r : GetTransactionResult)
        → poll_loop node fuel deadline hash w ≡ (v, some (ok r))
        → (u : W) × (node.transaction u hash ≡ (v, ok r))
          × (bytes_eq r.status get_transaction_status_not_found ≡ false)
    unfolding poll_loop poll_round
    loop_ok zero w v r h = cc
    loop_ok (suc fuel) w v r h = elim (Round-cases (poll_round node deadline hash w)) [
      | inl (u, q, e) ↦
          let k = sym (loop-done fuel w u q e) ∙ h in
          let f : poll_round node deadline hash w ≡ done v (ok r) = cc in
          let (a, b) = done_lem deadline (node.transaction w hash) v r f in (w, a, b)
      | inr (u, e) ↦ loop_ok fuel u v r (sym (loop-again fuel w u e) ∙ h)
    ]

  -- Over a clock that does not run backwards and pauses that take the poll interval, polling comes
  -- to an end within its seventeen rounds, with a result or an error, whatever the node answers.
  pub poll_transaction_terminates :
      IsClock
      → (hash : Bytes) (w : W)
      → (r : Result InvokeError GetTransactionResult) × ((poll_transaction node hash w).1 ≡ some r)
  unfolding poll_transaction
  poll_transaction_terminates c hash w =
      loop_ends (node.now w + poll_timeout) hash c 16 w (omega arith)

  pub poll_transaction_ok :
      (hash : Bytes) (w v : W) (r : GetTransactionResult)
      → poll_transaction node hash w ≡ (v, some (ok r))
      → (u : W) × (node.transaction u hash ≡ (v, ok r))
        × (bytes_eq r.status get_transaction_status_not_found ≡ false)
  unfolding poll_transaction
  poll_transaction_ok hash w v r h = loop_ok (node.now w + poll_timeout) hash 17 w v r h
