-- ===== src/Stellar/Registry/Disputes.antt =====
-- A dispute in the contract's wire form decodes to itself, open or resolved.
use tallybook.Prelude.{◌≡◌, refl, Option, none, some, [], ◌∷◌, length, ℕ}
use tallybook.Prelude.Bytes.{Bytes, ascii, bytes_eq}
use tallybook.Prelude.Result.{ok}
use tallybook.Stellar.ScVal.{ScVal}
use tallybook.Stellar.Xdr.{
  Strkey, IsCodec, scv_address, scv_i128, scv_map, map_entry, insert, lookup, map_field, decode_map,
  decode_entries, decode_symbol, decode_u32,
}
use tallybook.Stellar.Xdr.Address.{decode_address-scv_address}
use tallybook.Stellar.Xdr.I128.{decode_scv_i128}
use tallybook.Stellar.Registry.{Dispute, decode_dispute, decode_bytes32, optional}
use tallybook.Stellar.Registry.RoundTrip.{decode_bytes32-bytes}

-- The wire form of what a dispute has once it is resolved.
abbrev pub hash_val : Option Bytes → ScVal
hash_val none = ScVal.void
hash_val (some h) = ScVal.bytes h

abbrev pub ledger_val : Option ℕ → ScVal
ledger_val none = ScVal.void
ledger_val (some l) = ScVal.u32 l

abbrev pub HasLength : Option Bytes → Type 0
HasLength none = Unit
HasLength (some h) = length h ≡ 32

optional-hash_val : (h : Option Bytes) → HasLength h → optional decode_bytes32 (hash_val h) ≡ ok h
optional-hash_val none l = refl
optional-hash_val (some h) l = rw (decode_bytes32-bytes h l) refl

optional-ledger_val : (l : Option ℕ) → optional decode_u32 (ledger_val l) ≡ ok l
unfolding decode_u32
optional-ledger_val none = refl
optional-ledger_val (some l) = refl

-- The struct as the contract returns it, its fields in the order of their names.
abbrev pub dispute_val : Dispute → ScVal → ScVal → ScVal
dispute_val d consumer credited = scv_map (
    map_entry (ascii "amount_credited") credited
    ∷ map_entry (ascii "consumer") consumer
    ∷ map_entry (ascii "opened_ledger") (ScVal.u32 d.opened_ledger)
    ∷ map_entry (ascii "reason_hash") (ScVal.bytes d.reason_hash)
    ∷ map_entry (ascii "resolution_hash") (hash_val d.resolution_hash)
    ∷ map_entry (ascii "resolved_ledger") (ledger_val d.resolved_ledger)
    ∷ [])

-- Over a strkey codec, a dispute whose consumer and credit the encoders accept and whose hashes have
-- 32 bytes, as the contract returns it, decodes to that dispute, whether or not it has a resolution.
pub decode_dispute-dispute_val :
    (strkey : Strkey) (codec : IsCodec strkey) (d : Dispute) (consumer credited : ScVal)
    → scv_address strkey d.consumer ≡ ok consumer
    → scv_i128 (some d.amount_credited) ≡ ok credited
    → length d.reason_hash ≡ 32
    → HasLength d.resolution_hash
    → decode_dispute strkey (dispute_val d consumer credited) ≡ ok d
unfolding decode_dispute decode_map decode_entries decode_symbol insert map_field lookup bytes_eq
    decode_u32
decode_dispute-dispute_val strkey codec d consumer credited c a l m =
    rw
      (
        decode_scv_i128 d.amount_credited credited a,
        decode_address-scv_address strkey codec d.consumer consumer c,
        decode_bytes32-bytes d.reason_hash l,
        optional-hash_val d.resolution_hash m,
        optional-ledger_val d.resolved_ledger,
      )
      refl
