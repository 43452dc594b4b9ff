-- ===== src/Stellar/Invoke/Poll.antt =====
-- internal/stellar/invoke.go: `pollTransaction`. The loop is on fuel; seventeen rounds are enough.
pub mod Settles
pub mod Network
use tallybook.Prelude.{
  ℕ, zero, suc, ◌+◌, ◌*◌, ◌^◌, Bool, true, false, Option, none, some, ltb, if◌then◌else◌,
}
use tallybook.Prelude.Bytes.{Bytes, bytes_eq}
use tallybook.Prelude.Result.{Result, ok, err}
use tallybook.Stellar.Rpc.{CallError}
use tallybook.Stellar.Rpc.Types.{GetTransactionResult, get_transaction_status_not_found}
use tallybook.Stellar.Invoke.Node.{Node, InvokeError, poll_failed, not_settled, context_done}

-- `pollInterval` and `pollTimeout`, in nanoseconds.
abbrev pub poll_interval : ℕ
poll_interval = 2 * 10 ^ 9

abbrev pub poll_timeout : ℕ
poll_timeout = 30 * 10 ^ 9

-- A loop that is cut off has no result.
abbrev pub Polled : Type 0 → Type 0
Polled W = W × Option (Result InvokeError GetTransactionResult)

-- What a round goes on with: a result, or the world after the pause.
pub data Round (W : Type 0) : Type 0 where
  done : W → Result InvokeError GetTransactionResult → Round W
  again : W → Round W

module _ {W : Type 0} (node : Node W) where
  after_pause : W × Bool → Round W
  after_pause (w, true) = again w
  after_pause (w, false) = done w (err context_done)

  after_answer : ℕ → W × Result CallError GetTransactionResult → Round W
  unfolding after_pause bytes_eq
  after_answer deadline (w, err e) = done w (err (poll_failed e))
  after_answer deadline (w, ok r) =
      if bytes_eq r.status get_transaction_status_not_found
      then if ltb deadline (node.now w)
        then done w (err not_settled)
        else after_pause (node.pause w)
      else done w (ok r)

  unfoldable pub poll_round : ℕ → Bytes → W → Round W
  unfolding after_answer
  poll_round deadline hash w = after_answer deadline (node.transaction w hash)

  unfoldable pub poll_loop : ℕ → ℕ → Bytes → W → Polled W
  unfolding poll_round
  poll_loop zero deadline hash w = (w, none)
  poll_loop (suc fuel) deadline hash w = elim (poll_round deadline hash w) [
    | done w' r ↦ (w', some r)
    | again w' ↦ poll_loop fuel deadline hash w'
  ]

  unfoldable pub poll_transaction : Bytes → W → Polled W
  unfolding poll_loop
  poll_transaction hash w = poll_loop 17 (node.now w + poll_timeout) hash w
