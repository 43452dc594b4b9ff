-- ===== src/Stellar/Invoke/Tests.antt =====
-- internal/stellar/invoke.go: a node whose world is the time, on which a transaction settles after
-- three seconds, and codecs under which every text is its own encoding.
use tallybook.Prelude.{
  ℕ, ◌+◌, ◌≡◌, refl, true, false, none, some, List, [], ◌∷◌, arith, ltb, if◌then◌else◌,
}
use tallybook.Prelude.Bytes.{Bytes, ascii, bytes_eq}
use tallybook.Prelude.Int.{pos}
use tallybook.Prelude.Result.{Result, ok}
use tallybook.Stellar.ScVal.{ScVal, ScAddress}
use tallybook.Stellar.Toy.{toy_strkey, account_text, contract_text}
use tallybook.Stellar.Rpc.Types.{
  GetTransactionResult, SimulateTransactionResult, get_transaction_status_success,
  get_transaction_status_not_found, send_transaction_status_pending,
}
use tallybook.Stellar.Auth.{Signer, AuthEntry, Credentials, contract_fn, no_more}
use tallybook.Stellar.Invoke.Node.{Node, InvokeError}
use tallybook.Stellar.Invoke.Decode.{Codecs}
use tallybook.Stellar.Invoke.Poll.{poll_interval}
use tallybook.Stellar.Invoke.Poll.Settles.{IsClock}
use tallybook.Stellar.Invoke.Simulate.{simulate_call}
use tallybook.Stellar.Invoke.Submit.{invoke_with_auth}
use tallybook.Stellar.Invoke.Submit.Settled.{Settled, invoke_with_auth-Settled}
use tallybook.Stellar.Invoke.Submit.Returns.{invoke_with_auth_total}

abbrev answered : Bytes → GetTransactionResult
answered status = record {
  status = status;
  tx_hash = ascii "H";
  latest_ledger = 9;
  latest_ledger_close_time = [];
  oldest_ledger = 1;
  oldest_ledger_close_time = [];
  ledger = 9;
  created_at = [];
  application_order = 1;
  fee_bump = false;
  envelope_xdr = [];
  result_xdr = [];
  result_meta_xdr = ascii "M";
  diagnostic_events_xdr = [];
  events = record { transaction_events_xdr = []; contract_events_xdr = [] };
}

abbrev simulated : SimulateTransactionResult
simulated = record {
  latest_ledger = 9;
  min_resource_fee = ascii "40";
  transaction_data = ascii "D";
  results = record { auth = []; xdr = ascii "V" } ∷ [];
  events = [];
  restore_preamble = none;
  state_changes = [];
  cost = none;
  error = [];
}

abbrev toy_node : Node ℕ
toy_node = record {
  ledger_entries = λ w keys. (
    w,
    ok (record {
      entries =
          record {
            key = [];
            xdr = ascii "E";
            last_modified_ledger_seq = 1;
            live_until_ledger_seq = 0;
            ext_xdr = [];
          }
          ∷ [];
      latest_ledger = 9;
    }),
  );
  simulate = λ w params. (w + 1, ok simulated);
  send = λ w envelope. (
    w,
    ok (record {
      hash = ascii "H";
      status = send_transaction_status_pending;
      latest_ledger = 9;
      latest_ledger_close_time = [];
      error_result_xdr = [];
      diagnostic_events_xdr = [];
    }),
  );
  transaction = λ w hash. (
    w,
    ok (
        answered (
          if ltb w 3000000000
          then get_transaction_status_not_found
          else get_transaction_status_success)),
  );
  now = λ w. w;
  pause = λ w. (w + poll_interval, true);
}

toy_node-IsClock : IsClock toy_node
toy_node-IsClock = record { steady = λ w hash. omega arith; ticks = λ w h. omega arith }

abbrev codecs : Codecs Bytes
codecs = record {
  auth = record {
    strkey = toy_strkey;
    marshal_address = λ a. none;
    marshal_preimage = λ p. none;
    network_id = λ p. p;
    sha256 = λ b. b;
  };
  base64_encode = λ b. b;
  base64_decode = λ b. some b;
  marshal_sc_val = λ v. none;
  unmarshal_sc_val = λ b. some (ScVal.bytes b);
  unmarshal_auth = λ b. none;
  unmarshal_data = λ b. some b;
  unmarshal_meta = λ b. some (record { v3 = none; v4 = some (some (some (ScVal.u32 5))) });
  unmarshal_account = λ b. some (some (pos 7));
  marshal_account_key = λ b. some b;
  marshal_envelope = λ tx sigs. some (ascii "T");
  hash_transaction = λ tx passphrase. some passphrase;
  scan_int = λ b. some (pos 40);
}

abbrev signer : Signer
signer = record { address = account_text; sign = λ b. some b; sign_decorated = λ b. some b }

settles_test :
    (invoke_with_auth codecs toy_node (ascii "net") signer contract_text (ascii "anchor") [] [] 0)
    ≡ record { world = 4000000001; hash = ascii "H"; result = some (ok (ScVal.u32 5)) }
unfolding invoke_with_auth bytes_eq
settles_test = refl

simulate_test :
    (simulate_call codecs toy_node account_text contract_text (ascii "latest") [] 0).1
    ≡ ok (ScVal.bytes (ascii "V"))
unfolding simulate_call
simulate_test = refl

-- The source account's authorization of another call.
abbrev extra : List AuthEntry
extra =
    record {
      credentials = Credentials.source_account;
      root =
          contract_fn
            (record { contract = ScAddress.contract (ascii "K"); function = []; args = [] })
            no_more;
    }
    ∷ []

-- The second simulation moves the world once more.
extra_test :
    (invoke_with_auth codecs toy_node
      (ascii "net")
      signer
      contract_text
      (ascii "anchor")
      []
      extra
      0)
    ≡ record { world = 4000000002; hash = ascii "H"; result = some (ok (ScVal.u32 5)) }
unfolding invoke_with_auth bytes_eq
extra_test = refl

invoke_with_auth-Settled_example :
    Settled codecs toy_node
      (ascii "net")
      signer
      contract_text
      (ascii "anchor")
      []
      extra
      0
      (invoke_with_auth codecs toy_node
        (ascii "net")
        signer
        contract_text
        (ascii "anchor")
        []
        extra
        0)
      (ScVal.u32 5)
unfolding invoke_with_auth bytes_eq
invoke_with_auth-Settled_example =
    invoke_with_auth-Settled codecs toy_node (ascii "net") signer contract_text (ascii "anchor") []
      extra 0 (ScVal.u32 5) refl

invoke_with_auth_total_example :
    (r : Result InvokeError ScVal) × ((invoke_with_auth codecs toy_node
        (ascii "net")
        signer
        contract_text
        (ascii "anchor")
        []
        []
        0).result
      ≡ some r)
invoke_with_auth_total_example =
    invoke_with_auth_total codecs toy_node toy_node-IsClock (ascii "net") signer contract_text
      (ascii "anchor") [] [] 0
