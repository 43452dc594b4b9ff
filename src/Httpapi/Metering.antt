-- ===== src/Httpapi/Metering.antt =====
-- internal/httpapi/metering.go: `RequestInfo.Validate`, the validation of the configuration, and the
-- handler of `Middleware`. The type of a request, the answer of the ledger source and the bytes of
-- rand.Read are parameters, `none` where these fail. The wrapped handler runs exactly if the result
-- is `served`.
pub mod Recorded
mod Tests
use tallybook.Prelude.{ℕ, Bool, true, false, not, ◌||◌, Option, none, some, List, [], ◌∷◌}
use tallybook.Prelude.Bytes.{Bytes, bytes_eq, ascii}
use tallybook.Prelude.Result.{Result, ok, err, ◌>>=◌, ◌>>◌, fail_if, or_fail, map_err}
use tallybook.Prelude.Text.{Unicode, is_empty}
use tallybook.Merkle.Leaf.{endpoint_hash}
use tallybook.Meter.Pricing.{Catalog, PriceError, PricedRequest, price}
use tallybook.Httpapi.Requests.{RecordedRequest, Row, StoreError, Link, record_request, same}

pub record RequestInfo : Type 0 where
  pub consumer : Bytes
  pub protocol : Bytes
  pub channel : Bytes

pub data InfoError : Type 0 where
  empty_consumer unknown_protocol channel_mismatch : InfoError

pub validate_info : RequestInfo → Result InfoError (Unit {0})
validate_info info = do
  fail_if (is_empty info.consumer) empty_consumer
  fail_if
      (not (
        bytes_eq info.protocol (ascii "x402")
        || bytes_eq info.protocol (ascii "mpp_charge")
        || bytes_eq info.protocol (ascii "mpp_session")))
      unknown_protocol
  fail_if (not (same (not (is_empty info.channel)) (bytes_eq info.protocol (ascii "mpp_session"))))
      channel_mismatch

-- A `Pricer` is its catalog; of the ledger source and the recorder only whether they are nil.
pub record Config (Request : Type 0) : Type 0 where
  pub operator : Bytes
  pub method : Bytes
  pub path_template : Bytes
  pub pricer : Option Catalog
  pub has_ledger : Bool
  pub has_recorder : Bool
  pub unit_count : Option (Request → ℕ)

pub data ConfigError : Type 0 where
  empty_operator empty_method empty_path nil_pricer nil_ledger nil_recorder : ConfigError

pub data MeterError : Type 0 where
  no_request_info no_ledger no_random : MeterError
  invalid_info : InfoError → MeterError
  not_priced : PriceError → MeterError
  not_recorded : StoreError → MeterError

-- What the handler does in the end: 500 with the error that it logs, or the wrapped handler.
pub data Response : Type 0 where
  served : Response
  refused : MeterError → Response

module _ {Request : Type 0} where
  -- The pricer, if the configuration is complete.
  pub validate_config : Config Request → Result ConfigError Catalog
  validate_config cfg = do
    fail_if (is_empty cfg.operator) empty_operator
    fail_if (is_empty cfg.method) empty_method
    fail_if (is_empty cfg.path_template) empty_path
    pricer ← or_fail cfg.pricer nil_pricer
    fail_if (not cfg.has_ledger) nil_ledger
    fail_if (not cfg.has_recorder) nil_recorder
    ok pricer

  abbrev pub units_of : Config Request → Request → ℕ
  units_of cfg r = elim cfg.unit_count [ none ↦ 1 | some count ↦ count r ]

module _ {Request : Type 0} (u : Unicode) (sha256 : Bytes → Bytes) (cfg : Config Request)
    (pricer : Catalog) where
  pub meter_request :
      Option RequestInfo → Option ℕ → Option Bytes → Request → Result MeterError RecordedRequest
  unfolding validate_info
  meter_request info ledger request_id r = do
    info ← or_fail info no_request_info
    map_err invalid_info (validate_info info)
    ledger ← or_fail ledger no_ledger
    let units = units_of cfg r
    priced ← map_err not_priced (price u pricer ledger cfg.method cfg.path_template units)
    request_id ← or_fail request_id no_random
    ok (record {
      request_id = request_id;
      operator = cfg.operator;
      consumer = info.consumer;
      endpoint_hash = endpoint_hash sha256 cfg.method cfg.path_template;
      method = cfg.method;
      path_template = cfg.path_template;
      unit_count = units;
      price_version = priced.price_version;
      charged_amount = some priced.charged_amount;
      protocol = info.protocol;
      channel = info.channel;
      observed_ledger = ledger;
    })

  record_metered : Link → List Row → Result MeterError RecordedRequest → List Row × Response
  record_metered link rows (err e) = (rows, refused e)
  record_metered link rows (ok req) =
      let (rows', failed) = record_request link rows req in
      (rows', elim failed [ none ↦ served | some e ↦ refused (not_recorded e) ])

  pub handle :
      Option RequestInfo → Option ℕ → Option Bytes → Request → Link → List Row → List Row × Response
  unfolding meter_request record_metered
  handle info ledger request_id r link rows =
      record_metered link rows (meter_request info ledger request_id r)

-- `Middleware`: an error at startup, or the handler.
pub middleware :
    {Request : Type 0}
    → Unicode
    → (Bytes → Bytes)
    → Config Request
    → Result ConfigError (
        Option RequestInfo
        → Option ℕ
        → Option Bytes
        → Request
        → Link
        → List Row
        → List Row × Response)
unfolding validate_config handle
middleware u sha256 cfg = do pricer ← validate_config cfg; ok (handle u sha256 cfg pricer)
