-- ===== src/Stellar/PriceBook.antt =====
-- internal/stellar/pricebook.go: the binding of the price_book contract. What a call of the contract
-- returns is the parameter `call`, `none` where the simulation or the transaction fails; the
-- transaction's hash is left out.
pub mod RoundTrip
mod Tests
use tallybook.Prelude.{ℕ, Option, List, [], ◌∷◌}
use tallybook.Prelude.Bytes.{Bytes, ascii}
use tallybook.Prelude.Result.{Result, ok, ◌>>=◌, or_fail}
use tallybook.Stellar.ScVal.{ScVal}
use tallybook.Stellar.Xdr.{
  X, XdrError, Strkey, scv_address, decode_address, decode_map, decode_string, decode_u32,
}
use tallybook.Stellar.Registry.{decode_bytes32, field}

pub record PriceBookVersion : Type 0 where
  pub operator : Bytes
  pub version : ℕ
  pub schedule_hash : Bytes
  pub uri : Bytes
  pub effective_ledger : ℕ
  pub published_ledger : ℕ

module _ (strkey : Strkey) where
  pub decode_price_book_version : ScVal → X PriceBookVersion
  decode_price_book_version v = do
    m ← decode_map v
    operator ← field m (ascii "operator") (decode_address strkey)
    version ← field m (ascii "version") decode_u32
    schedule_hash ← field m (ascii "schedule_hash") decode_bytes32
    uri ← field m (ascii "uri") decode_string
    effective_ledger ← field m (ascii "effective_ledger") decode_u32
    published_ledger ← field m (ascii "published_ledger") decode_u32
    ok (record {
      operator = operator;
      version = version;
      schedule_hash = schedule_hash;
      uri = uri;
      effective_ledger = effective_ledger;
      published_ledger = published_ledger;
    })

module _ (strkey : Strkey) (call : Bytes → List ScVal → Option ScVal) where
  abbrev invoke_book : Bytes → List ScVal → X ScVal
  invoke_book f args = or_fail (call f args) (XdrError.call_failed f)

  pub latest : Bytes → X ℕ
  latest operator = do
    operator_arg ← scv_address strkey operator
    result ← invoke_book (ascii "latest") (operator_arg ∷ [])
    decode_u32 result

  pub book_version_at : Bytes → ℕ → X ℕ
  book_version_at operator ledger = do
    operator_arg ← scv_address strkey operator
    result ← invoke_book (ascii "version_at") (operator_arg ∷ ScVal.u32 ledger ∷ [])
    decode_u32 result

  pub get_version : Bytes → ℕ → X PriceBookVersion
  unfolding decode_price_book_version
  get_version operator version = do
    operator_arg ← scv_address strkey operator
    result ← invoke_book (ascii "get_version") (operator_arg ∷ ScVal.u32 version ∷ [])
    decode_price_book_version strkey result

  pub publish : Bytes → Bytes → Bytes → ℕ → X ℕ
  publish signer schedule_hash uri effective_ledger = do
    operator_arg ← scv_address strkey signer
    result ← invoke_book (ascii "publish") (
        operator_arg
        ∷ ScVal.bytes schedule_hash
        ∷ ScVal.string uri
        ∷ ScVal.u32 effective_ledger
        ∷ [])
    decode_u32 result
