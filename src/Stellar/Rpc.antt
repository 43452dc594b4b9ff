-- ===== src/Stellar/Rpc.antt =====
-- internal/stellar/rpc.go: the JSON-RPC client. What encoding/json makes of a request and of a
-- reply, and what the HTTP client does, is the parameter `Wire`, over a network `N` that each
-- request changes. An int64 that counts up is the number of its 64 bits.
pub mod Types
pub mod Calls
mod Tests
use tallybook.Prelude.{
  ℕ, ◌+◌, ◌%◌, ◌^◌, Bool, true, false, not, Option, none, some, List, take, ◌==◌, if◌then◌else◌,
}
use tallybook.Prelude.Bytes.{Bytes, ascii}
use tallybook.Prelude.Int.{ℤ}
use tallybook.Prelude.Result.{Result, ok, err}
use tallybook.Stellar.Rpc.Types.{
  GetLatestLedgerResult, GetEventsParams, GetEventsResult, GetLedgerEntriesResult,
  SimulateTransactionParams, SimulateTransactionResult, SendTransactionResult, GetTransactionResult,
}

pub record Client : Type 0 where
  pub url : Bytes
  pub next_id : ℕ

-- What `Params` holds, by the method it is for.
pub data Params : Type 0 where
  no_arguments : Params
  events_params : GetEventsParams → Params
  keys_params : List Bytes → Params
  simulate_params : SimulateTransactionParams → Params
  transaction_params : Bytes → Params
  hash_params : Bytes → Params

pub record RpcRequest : Type 0 where
  pub jsonrpc : Bytes
  pub id : ℕ
  pub method : Bytes
  pub params : Params

pub record RpcError : Type 0 where
  pub code : ℤ
  pub message : Bytes
  pub details : Bytes

pub record RpcResponse : Type 0 where
  pub jsonrpc : Bytes
  pub id : ℕ
  pub result : Bytes
  pub error : Option RpcError

pub record HttpResponse : Type 0 where
  pub status : ℕ
  pub body : Bytes

-- The errors of `call`, each with the method.
pub data CallError : Type 0 where
  marshal_failed : Bytes → CallError
  build_failed : Bytes → CallError
  request_failed : Bytes → CallError
  bad_status : Bytes → ℕ → Bytes → CallError
  bad_envelope : Bytes → CallError
  rpc_error : Bytes → RpcError → CallError
  bad_result : Bytes → CallError

pub record Wire (N : Type 0) : Type 0 where
  pub marshal : RpcRequest → Option Bytes
  pub is_url : Bytes → Bool
  pub post : N → Bytes → Bytes → N × Option HttpResponse
  pub decode_response : Bytes → Option RpcResponse
  pub latest_ledger : Bytes → Option GetLatestLedgerResult
  pub events : Bytes → Option GetEventsResult
  pub ledger_entries : Bytes → Option GetLedgerEntriesResult
  pub simulation : Bytes → Option SimulateTransactionResult
  pub sending : Bytes → Option SendTransactionResult
  pub transaction : Bytes → Option GetTransactionResult

-- `c.nextID.Add(1)`
unfoldable pub add_id : ℕ → ℕ
add_id id = (id + 1) % 2 ^ 64

-- The client and the network.
pub record Session (N : Type 0) : Type 0 where
  pub client : Client
  pub net : N

unfoldable pub new_client : Bytes → Client
new_client url = record { url = url; next_id = 0 }

module _ {N : Type 0} (wire : Wire N) where
  module _ {A : Type 0} (decode : Bytes → Option A) (method : Bytes) where
    unfoldable pub decode_result : Option A → Result CallError A
    decode_result none = err (bad_result method)
    decode_result (some a) = ok a

    unfoldable pub read_response : Option RpcResponse → Result CallError A
    unfolding decode_result
    read_response none = err (bad_envelope method)
    read_response (some r) = elim r.error [
      | some e ↦ err (rpc_error method e)
      | none ↦ decode_result (decode r.result)
    ]

    unfoldable pub read_http : Option HttpResponse → Result CallError A
    unfolding read_response
    read_http none = err (request_failed method)
    read_http (some r) =
        if not (r.status == 200)
        then err (bad_status method r.status (take 4096 r.body))
        else read_response (wire.decode_response r.body)

    -- The request with its id, on its way.
    unfoldable pub send_request : Session N → Option Bytes → Session N × Result CallError A
    unfolding read_http
    send_request s none = (s, err (marshal_failed method))
    send_request s (some body) =
        if wire.is_url s.client.url
        then (let (net, reply) = wire.post s.net s.client.url body in
            (record s { net = net }, read_http reply))
        else (s, err (build_failed method))

    unfoldable pub call : Session N → Params → Session N × Result CallError A
    unfolding send_request add_id
    call s params =
        let id = add_id s.client.next_id in
        send_request (record s { client = record { url = s.client.url; next_id = id } })
          (wire.marshal
            (record { jsonrpc = ascii "2.0"; id = id; method = method; params = params }))

  unfoldable pub get_latest_ledger : Session N → Session N × Result CallError GetLatestLedgerResult
  unfolding call
  get_latest_ledger s = call wire.latest_ledger (ascii "getLatestLedger") s no_arguments

  unfoldable pub get_events :
      Session N → GetEventsParams → Session N × Result CallError GetEventsResult
  unfolding call
  get_events s params = call wire.events (ascii "getEvents") s (events_params params)

  unfoldable pub get_ledger_entries :
      Session N → List Bytes → Session N × Result CallError GetLedgerEntriesResult
  unfolding call
  get_ledger_entries s keys =
      call wire.ledger_entries (ascii "getLedgerEntries") s (keys_params keys)

  unfoldable pub simulate_transaction :
      Session N → SimulateTransactionParams → Session N × Result CallError SimulateTransactionResult
  unfolding call
  simulate_transaction s params =
      call wire.simulation (ascii "simulateTransaction") s (simulate_params params)

  unfoldable pub send_transaction :
      Session N → Bytes → Session N × Result CallError SendTransactionResult
  unfolding call
  send_transaction s transaction =
      call wire.sending (ascii "sendTransaction") s (transaction_params transaction)

  unfoldable pub get_transaction :
      Session N → Bytes → Session N × Result CallError GetTransactionResult
  unfolding call
  get_transaction s hash = call wire.transaction (ascii "getTransaction") s (hash_params hash)
