-- ===== src/Stellar/Rpc/Tests.antt =====
-- internal/stellar/rpc.go: a server that counts its requests and answers each with the same ledger.
use tallybook.Prelude.{ℕ, ◌+◌, ◌%◌, ◌^◌, ◌≡◌, ◌⊎◌, ◌↔◌, refl, true, none, some, [], ◌∷◌}
use tallybook.Prelude.Bytes.{Bytes, ascii}
use tallybook.Prelude.Result.{ok, err}
use tallybook.Stellar.Rpc.{
  Wire, Session, no_arguments, bad_status, call, get_latest_ledger, new_client,
}
use tallybook.Stellar.Rpc.Types.{GetLatestLedgerResult}
use tallybook.Stellar.Rpc.Calls.{request_of, Answered, call_iff}

abbrev ledger : GetLatestLedgerResult
ledger = record {
  id = ascii "L";
  protocol_version = 23;
  sequence = 9;
  close_time = [];
  header_xdr = [];
  metadata_xdr = [];
}

abbrev replying : ℕ → Wire ℕ
replying status = record {
  marshal = λ r. some (r.id ∷ r.method);
  is_url = λ url. true;
  post = λ n url body. (n + 1, some (record { status = status; body = body }));
  decode_response =
      λ body. some (record { jsonrpc = ascii "2.0"; id = 1; result = body; error = none });
  latest_ledger = λ b. some ledger;
  events = λ b. none;
  ledger_entries = λ b. none;
  simulation = λ b. none;
  sending = λ b. none;
  transaction = λ b. none;
}

abbrev session : Session ℕ
session = record { client = new_client (ascii "https://rpc"); net = 0 }

answered_test : (get_latest_ledger (replying 200) session).1 ≡ ok ledger
unfolding get_latest_ledger
answered_test = refl

refused_test :
    (get_latest_ledger (replying 503) session).1
    ≡ err (bad_status (ascii "getLatestLedger") 503 (1 ∷ ascii "getLatestLedger"))
unfolding get_latest_ledger new_client
refused_test = refl

call_iff_example :
    (((call (replying 200) (λ b. some ledger) (ascii "getLatestLedger") session no_arguments).1
        ≡ ok ledger)
      ↔ Answered
          (replying 200)
          (λ b. some ledger)
          (ascii "getLatestLedger")
          session
          no_arguments
          ledger)
    × ((call
          (replying 200)
          (λ b. some ledger)
          (ascii "getLatestLedger")
          session
          no_arguments).0.client.next_id
        ≡ (session.client.next_id + 1) % 2 ^ 64)
    × (((call
            (replying 200)
            (λ b. some ledger)
            (ascii "getLatestLedger")
            session
            no_arguments).0.net
          ≡ session.net)
        ⊎ ((body : Bytes) × ((replying 200).marshal (
                request_of
                  (replying 200)
                  (λ b. some ledger)
                  (ascii "getLatestLedger")
                  session
                  no_arguments)
              ≡ some body)
            × ((call
                  (replying 200)
                  (λ b. some ledger)
                  (ascii "getLatestLedger")
                  session
                  no_arguments).0.net
                ≡ ((replying 200).post session.net session.client.url body).0)))
call_iff_example =
    call_iff (replying 200) (λ b. some ledger) (ascii "getLatestLedger") session no_arguments ledger
