-- ===== src/Stellar/Invoke/Node.antt =====
-- internal/stellar/invoke.go: what the code asks of the RPC client and of the clock, its errors, and
-- the steps that it is made of. `node_of` is the client of internal/stellar/rpc.go, over a network
-- that also keeps the time.
use tallybook.Prelude.{ℕ, ◌≡◌, refl, Bool, List}
use tallybook.Prelude.Bytes.{Bytes}
use tallybook.Prelude.Result.{Result, ok, err}
use tallybook.Stellar.Xdr.{XdrError}
use tallybook.Stellar.Rpc.{
  CallError, Wire, Session, get_ledger_entries, simulate_transaction, send_transaction,
  get_transaction,
}
use tallybook.Stellar.Rpc.Types.{
  GetLedgerEntriesResult, SimulateTransactionParams, SimulateTransactionResult,
  SendTransactionResult, GetTransactionResult,
}

-- `now` is `time.Now`; `pause` is the select on `ctx.Done()` and `time.After(pollInterval)`, and is
-- false where the context is done.
pub record Node (W : Type 0) : Type 0 where
  pub ledger_entries : W → List Bytes → W × Result CallError GetLedgerEntriesResult
  pub simulate : W → SimulateTransactionParams → W × Result CallError SimulateTransactionResult
  pub send : W → Bytes → W × Result CallError SendTransactionResult
  pub transaction : W → Bytes → W × Result CallError GetTransactionResult
  pub now : W → ℕ
  pub pause : W → W × Bool

pub record Clock (N : Type 0) : Type 0 where
  pub now : N → ℕ
  pub pause : N → N × Bool

unfoldable pub node_of : {N : Type 0} → Wire N → Clock N → Node (Session N)
unfolding get_ledger_entries simulate_transaction send_transaction get_transaction
node_of wire clock = record {
  ledger_entries = get_ledger_entries wire;
  simulate = simulate_transaction wire;
  send = send_transaction wire;
  transaction = get_transaction wire;
  now = λ s. clock.now s.net;
  pause = λ s. let (net, fired) = clock.pause s.net in (record s { net = net }, fired);
}

pub data InvokeError : Type 0 where
  bad_account : Bytes → InvokeError
  bad_contract : XdrError → InvokeError
  marshal_failed : InvokeError
  fetch_failed : CallError → InvokeError
  account_not_found : InvokeError
  bad_ledger_entry : InvokeError
  not_an_account : InvokeError
  simulate_failed : CallError → InvokeError
  simulation_failed : Bytes → InvokeError
  no_results : InvokeError
  bad_auth_entry : InvokeError
  bad_transaction_data : InvokeError
  bad_resource_fee : Bytes → InvokeError
  hash_failed : InvokeError
  sign_failed : InvokeError
  submit_failed : CallError → InvokeError
  rejected : Bytes → InvokeError
  unexpected_status : Bytes → InvokeError
  poll_failed : CallError → InvokeError
  not_settled : InvokeError
  context_done : InvokeError
  transaction_failed : Bytes → Bytes → InvokeError
  bad_meta : InvokeError
  no_return_value : InvokeError
  bad_sc_val : XdrError → InvokeError

-- A step: it changes the world and may fail.
abbrev pub Io : Type 0 → Type 0 → Type 0
Io W A = W → W × Result InvokeError A

module _ {W : Type 0} where
  unfoldable pub then_io :
      {A B : Type 0} → W × Result InvokeError A → (A → Io W B) → W × Result InvokeError B
  then_io (w, ok a) f = f a w
  then_io (w, err e) f = (w, err e)

  infixl 5 ◌>>=◌
  abbrev pub ◌>>=◌ : {A B : Type 0} → Io W A → (A → Io W B) → Io W B
  (m >>= f) w = then_io (m w) f

  abbrev pub lift : {A : Type 0} → Result InvokeError A → Io W A
  lift r w = (w, r)

  module _ {A B C : Type 0} where
    -- Two steps succeed only where the first one does and the second one does behind it.
    pub through :
        (p : W × Result InvokeError A) (f : A → Io W B) (w' : W) (b : B)
        → then_io p f ≡ (w', ok b)
        → ((w : W) (a : A) → p ≡ (w, ok a) → f a w ≡ (w', ok b) → C)
        → C
    unfolding then_io
    through (w, ok a) f w' b h k = k w a refl h
    through (w, err e) f w' b h k = cc

    pub through_lift :
        (r : Result InvokeError A) (f : A → Io W B) (w w' : W) (b : B)
        → then_io (w, r) f ≡ (w', ok b)
        → ((a : A) → r ≡ ok a → f a w ≡ (w', ok b) → C)
        → C
    unfolding then_io
    through_lift (ok a) f w w' b h k = k a refl h
    through_lift (err e) f w w' b h k = cc
