-- ===== src/Stellar/Rpc/Types.antt =====
-- internal/stellar/rpc.go: the parameters and the results of the methods. A uint32 and a uint64 are
-- numbers; a pointer that may be nil is an `Option`.
use tallybook.Prelude.{ℕ, Bool, Option, List}
use tallybook.Prelude.Bytes.{Bytes, ascii}

pub record GetLatestLedgerResult : Type 0 where
  pub id : Bytes
  pub protocol_version : ℕ
  pub sequence : ℕ
  pub close_time : Bytes
  pub header_xdr : Bytes
  pub metadata_xdr : Bytes

pub record EventFilter : Type 0 where
  pub kind : Bytes
  pub contract_ids : List Bytes
  pub topics : List (List Bytes)

pub record EventsPagination : Type 0 where
  pub cursor : Bytes
  pub limit : ℕ

pub record GetEventsParams : Type 0 where
  pub start_ledger : ℕ
  pub end_ledger : ℕ
  pub filters : List EventFilter
  pub pagination : Option EventsPagination
  pub xdr_format : Bytes

pub record EventInfo : Type 0 where
  pub kind : Bytes
  pub ledger : ℕ
  pub ledger_closed_at : Bytes
  pub contract_id : Bytes
  pub id : Bytes
  pub transaction_index : ℕ
  pub operation_index : ℕ
  pub in_successful_contract_call : Bool
  pub topic : List Bytes
  pub value : Bytes
  pub tx_hash : Bytes

pub record GetEventsResult : Type 0 where
  pub latest_ledger : ℕ
  pub oldest_ledger : ℕ
  pub latest_ledger_close_time : Bytes
  pub oldest_ledger_close_time : Bytes
  pub events : List EventInfo
  pub cursor : Bytes

pub record LedgerEntryResult : Type 0 where
  pub key : Bytes
  pub xdr : Bytes
  pub last_modified_ledger_seq : ℕ
  pub live_until_ledger_seq : ℕ
  pub ext_xdr : Bytes

pub record GetLedgerEntriesResult : Type 0 where
  pub entries : List LedgerEntryResult
  pub latest_ledger : ℕ

pub record SimulateResourceConfig : Type 0 where
  pub instruction_leeway : ℕ

pub record SimulateTransactionParams : Type 0 where
  pub transaction : Bytes
  pub resource_config : Option SimulateResourceConfig
  pub xdr_format : Bytes
  pub auth_mode : Bytes

pub record SimulateHostFunctionResult : Type 0 where
  pub auth : List Bytes
  pub xdr : Bytes

pub record RestorePreamble : Type 0 where
  pub min_resource_fee : Bytes
  pub transaction_data : Bytes

pub record LedgerEntryChange : Type 0 where
  pub kind : Bytes
  pub key : Bytes
  pub before : Option Bytes
  pub after : Option Bytes

pub record SimulateCost : Type 0 where
  pub cpu_insns : Bytes
  pub mem_bytes : Bytes

pub record SimulateTransactionResult : Type 0 where
  pub latest_ledger : ℕ
  pub min_resource_fee : Bytes
  pub transaction_data : Bytes
  pub results : List SimulateHostFunctionResult
  pub events : List Bytes
  pub restore_preamble : Option RestorePreamble
  pub state_changes : List LedgerEntryChange
  pub cost : Option SimulateCost
  pub error : Bytes

pub record SendTransactionResult : Type 0 where
  pub hash : Bytes
  pub status : Bytes
  pub latest_ledger : ℕ
  pub latest_ledger_close_time : Bytes
  pub error_result_xdr : Bytes
  pub diagnostic_events_xdr : List Bytes

pub record TransactionEvents : Type 0 where
  pub transaction_events_xdr : List Bytes
  pub contract_events_xdr : List (List Bytes)

pub record GetTransactionResult : Type 0 where
  pub status : Bytes
  pub tx_hash : Bytes
  pub latest_ledger : ℕ
  pub latest_ledger_close_time : Bytes
  pub oldest_ledger : ℕ
  pub oldest_ledger_close_time : Bytes
  pub ledger : ℕ
  pub created_at : Bytes
  pub application_order : ℕ
  pub fee_bump : Bool
  pub envelope_xdr : Bytes
  pub result_xdr : Bytes
  pub result_meta_xdr : Bytes
  pub diagnostic_events_xdr : List Bytes
  pub events : TransactionEvents

abbrev pub send_transaction_status_pending : Bytes
send_transaction_status_pending = ascii "PENDING"

abbrev pub send_transaction_status_duplicate : Bytes
send_transaction_status_duplicate = ascii "DUPLICATE"

abbrev pub send_transaction_status_try_again : Bytes
send_transaction_status_try_again = ascii "TRY_AGAIN_LATER"

abbrev pub send_transaction_status_error : Bytes
send_transaction_status_error = ascii "ERROR"

abbrev pub get_transaction_status_success : Bytes
get_transaction_status_success = ascii "SUCCESS"

abbrev pub get_transaction_status_not_found : Bytes
get_transaction_status_not_found = ascii "NOT_FOUND"

abbrev pub get_transaction_status_failed : Bytes
get_transaction_status_failed = ascii "FAILED"
