-- ===== src/Merkle/Leaf.antt =====
-- internal/merkle/leaf.go: a billed request as the map that the contract expects, and its hash.
-- `sha256` of the standard library, and of the SDK the decoding of a strkey as an account key and
-- `ScVal.MarshalBinary`, are parameters.
pub mod Keys
pub mod Injective
pub mod Billed
mod Tests
use tallybook.Prelude.{
  ℕ, Bool, Option, none, some, List, [], ◌∷◌, ◌++◌, length, ◌==◌, if◌then◌else◌,
}
use tallybook.Prelude.Bytes.{Bytes, ascii}
use tallybook.Prelude.Int.{ℤ}
use tallybook.Prelude.Result.{Result, ok, err, ◌>>=◌, or_fail}
use tallybook.Stellar.ScVal.{ScAddress, ScVal, ScMapEntry, to_entries}
use tallybook.Stellar.Xdr.{in_i128, i128_parts}

pub record Record : Type 0 where
  pub amount : Option ℤ
  pub consumer : Bytes
  pub endpoint_hash : Bytes
  pub ledger : ℕ
  pub price_version : ℕ
  pub request_id : Bytes
  pub units : ℕ

pub data LeafError : Type 0 where
  nil_amount : LeafError
  out_of_i128_range : ℤ → LeafError
  bad_address : Bytes → LeafError
  bad_address_length : ℕ → LeafError
  marshal_failed : LeafError

pub map_entry : Bytes → ScVal → ScMapEntry
map_entry key val = record { key = ScVal.symbol key; val = val }

pub scv_u32 : ℕ → ScVal
scv_u32 v = ScVal.u32 v

pub scv_u64 : ℕ → ScVal
scv_u64 v = ScVal.u64 v

pub scv_bytes_n32 : Bytes → ScVal
scv_bytes_n32 v = ScVal.bytes v

pub scv_i128 : Option ℤ → Result LeafError ScVal
scv_i128 none = err nil_amount
scv_i128 (some v) = if in_i128 v then ok (ScVal.i128 (i128_parts v)) else err (out_of_i128_range v)

-- `sha256(method || " " || path_template)`
unfoldable pub endpoint_hash : (Bytes → Bytes) → Bytes → Bytes → Bytes
endpoint_hash sha256 method path_template = sha256 (method ++ (b' ' ∷ path_template))

-- The entries, in the order of the source.
pub leaf_entries : Record → ScVal → ScVal → List ScMapEntry
unfolding map_entry scv_u32 scv_u64 scv_bytes_n32
leaf_entries r amount consumer =
    map_entry (ascii "amount") amount
    ∷ map_entry (ascii "consumer") consumer
    ∷ map_entry (ascii "endpoint") (scv_bytes_n32 r.endpoint_hash)
    ∷ map_entry (ascii "ledger") (scv_u32 r.ledger)
    ∷ map_entry (ascii "price_v") (scv_u32 r.price_version)
    ∷ map_entry (ascii "reqid") (scv_bytes_n32 r.request_id)
    ∷ map_entry (ascii "units") (scv_u64 r.units)
    ∷ []

account_val : Bytes → Result LeafError ScVal
account_val raw =
    if length raw == 32
    then ok (ScVal.address (ScAddress.account raw))
    else err (bad_address_length (length raw))

-- `decode_account` is `strkey.Decode(strkey.VersionByteAccountID, address)`.
module _ (decode_account : Bytes → Option Bytes) where
  pub scv_address : Bytes → Result LeafError ScVal
  unfolding account_val
  scv_address address = do
    raw ← or_fail (decode_account address) (bad_address address)
    account_val raw

  pub record_entries : Record → Result LeafError (List ScMapEntry)
  unfolding scv_i128 scv_address leaf_entries
  record_entries r = do
    amount ← scv_i128 r.amount
    consumer ← scv_address r.consumer
    ok (leaf_entries r amount consumer)

  module _ (marshal : ScVal → Option Bytes) where
    pub encode_record : Record → Result LeafError Bytes
    unfolding record_entries
    encode_record r = do
      m ← record_entries r
      or_fail (marshal (ScVal.map (to_entries m))) marshal_failed

    pub leaf : (Bytes → Bytes) → Record → Result LeafError Bytes
    unfolding encode_record
    leaf sha256 r = do record_bytes ← encode_record r; ok (sha256 (sha256 record_bytes))
