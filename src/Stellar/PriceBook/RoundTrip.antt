-- ===== src/Stellar/PriceBook/RoundTrip.antt =====
-- A price book version in the contract's wire form decodes to itself.
use tallybook.Prelude.{◌≡◌, refl, [], ◌∷◌, length}
use tallybook.Prelude.Bytes.{ascii, bytes_eq}
use tallybook.Prelude.Result.{ok}
use tallybook.Stellar.ScVal.{ScVal}
use tallybook.Stellar.Xdr.{
  Strkey, IsCodec, scv_address, scv_map, map_entry, insert, lookup, map_field, decode_map,
  decode_entries, decode_symbol, decode_string, decode_u32,
}
use tallybook.Stellar.Xdr.Address.{decode_address-scv_address}
use tallybook.Stellar.Registry.RoundTrip.{decode_bytes32-bytes}
use tallybook.Stellar.PriceBook.{PriceBookVersion, decode_price_book_version}

-- The struct as the contract returns it, its fields in the order of their names.
abbrev pub version_val : PriceBookVersion → ScVal → ScVal
version_val v operator = scv_map (
    map_entry (ascii "effective_ledger") (ScVal.u32 v.effective_ledger)
    ∷ map_entry (ascii "operator") operator
    ∷ map_entry (ascii "published_ledger") (ScVal.u32 v.published_ledger)
    ∷ map_entry (ascii "schedule_hash") (ScVal.bytes v.schedule_hash)
    ∷ map_entry (ascii "uri") (ScVal.string v.uri)
    ∷ map_entry (ascii "version") (ScVal.u32 v.version)
    ∷ [])

-- Over a strkey codec, a price book version whose operator `ScvAddress` accepts and whose schedule
-- hash has 32 bytes, as the contract returns it, decodes to that version.
pub decode_price_book_version-version_val :
    (strkey : Strkey) (codec : IsCodec strkey) (v : PriceBookVersion) (operator : ScVal)
    → scv_address strkey v.operator ≡ ok operator
    → length v.schedule_hash ≡ 32
    → decode_price_book_version strkey (version_val v operator) ≡ ok v
unfolding decode_price_book_version decode_map decode_entries decode_symbol insert map_field lookup
    bytes_eq decode_u32 decode_string
decode_price_book_version-version_val strkey codec v operator o l =
    rw
      (
        decode_address-scv_address strkey codec v.operator operator o,
        decode_bytes32-bytes v.schedule_hash l,
      )
      refl
