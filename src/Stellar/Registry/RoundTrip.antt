-- ===== src/Stellar/Registry/RoundTrip.antt =====
-- A statement in the contract's wire form, a map from field names to values, decodes to itself.
use tallybook.Prelude.{◌≡◌, refl, sym, subst, Option, none, some, [], ◌∷◌, length, arith}
use tallybook.Prelude.Bytes.{Bytes, ascii, bytes_eq}
use tallybook.Prelude.Result.{ok}
use tallybook.Stellar.ScVal.{ScVal}
use tallybook.Stellar.Xdr.{
  insert, decode_entries, Strkey, IsCodec, scv_address, scv_i128, scv_map, map_entry,
  decode_address, decode_map, decode_u32, decode_u64, lookup, map_field, decode_symbol, decode_vec,
  decode_bytes,
}
use tallybook.Stellar.Xdr.Address.{decode_address-scv_address, scv_address-IsAddress}
use tallybook.Stellar.Xdr.I128.{decode_scv_i128}
use tallybook.Stellar.Registry.{
  Statement, decode_statement, decode_bytes32, decode_unit_enum_variant, decode_single,
  decode_optional_address, scv_optional_address, scv_protocol,
}

pub decode_bytes32-bytes : (b : Bytes) → length b ≡ 32 → decode_bytes32 (ScVal.bytes b) ≡ ok b
unfolding decode_bytes32 decode_bytes
decode_bytes32-bytes b h = ground arith

pub decode_unit_enum_variant-scv_protocol :
    (p : Bytes) → decode_unit_enum_variant (scv_protocol p) ≡ ok p
unfolding decode_unit_enum_variant decode_vec decode_single decode_symbol
decode_unit_enum_variant-scv_protocol p = refl

decode_optional_address-scv_optional_address :
    (strkey : Strkey) (codec : IsCodec strkey) (addr : Option Bytes) (v : ScVal)
    → scv_optional_address strkey addr ≡ ok v
    → decode_optional_address strkey v ≡ ok addr
unfolding scv_optional_address decode_optional_address
decode_optional_address-scv_optional_address strkey codec none v h =
    let e : ScVal.void ≡ v = cc in subst (λ x. decode_optional_address strkey x ≡ ok none) e refl
decode_optional_address-scv_optional_address strkey codec (some a) v h =
    let (w, e) = scv_address-IsAddress strkey a v h in
    let d : decode_address strkey (ScVal.address w) ≡ ok a =
      rw (sym e) (decode_address-scv_address strkey codec a v h) in
    rw (e, decode_optional_address, d) refl

-- A statement's values on the wire: the addresses and amounts as the encoders make them.
pub record Wire (strkey : Strkey) (s : Statement) : Type 0 where
  pub operator : ScVal
  pub consumer : ScVal
  pub token : ScVal
  pub channel : ScVal
  pub billed : ScVal
  pub settled : ScVal
  pub operator_eq : scv_address strkey s.operator ≡ ok operator
  pub consumer_eq : scv_address strkey s.consumer ≡ ok consumer
  pub token_eq : scv_address strkey s.token ≡ ok token
  pub channel_eq : scv_optional_address strkey s.channel ≡ ok channel
  pub billed_eq : scv_i128 (some s.amount_billed) ≡ ok billed
  pub settled_eq : scv_i128 (some s.amount_settled) ≡ ok settled
  pub usage_root_length : length s.usage_root ≡ 32

-- The struct as the contract returns it, its fields in the order of their names.
abbrev pub statement_val : {strkey : Strkey} (s : Statement) → Wire strkey s → ScVal
statement_val s w = scv_map (
    map_entry (ascii "amount_billed") w.billed
    ∷ map_entry (ascii "amount_settled") w.settled
    ∷ map_entry (ascii "anchored_ledger") (ScVal.u32 s.anchored_ledger)
    ∷ map_entry (ascii "channel") w.channel
    ∷ map_entry (ascii "consumer") w.consumer
    ∷ map_entry (ascii "operator") w.operator
    ∷ map_entry (ascii "period_end") (ScVal.u32 s.period_end)
    ∷ map_entry (ascii "period_start") (ScVal.u32 s.period_start)
    ∷ map_entry (ascii "price_book_version") (ScVal.u32 s.price_book_version)
    ∷ map_entry (ascii "protocol") (scv_protocol s.protocol)
    ∷ map_entry (ascii "request_count") (ScVal.u64 s.request_count)
    ∷ map_entry (ascii "status") (scv_protocol s.status)
    ∷ map_entry (ascii "token") w.token
    ∷ map_entry (ascii "usage_root") (ScVal.bytes s.usage_root)
    ∷ [])

-- Over a strkey codec, a statement whose addresses and amounts the encoders accept and whose root
-- has 32 bytes, as the contract returns it, decodes to that statement, its absent or present
-- channel included.
pub decode_statement-statement_val :
    (strkey : Strkey) (codec : IsCodec strkey) (s : Statement) (w : Wire strkey s)
    → decode_statement strkey (statement_val s w) ≡ ok s
unfolding decode_statement decode_map decode_entries decode_symbol insert map_field lookup bytes_eq
    decode_u32 decode_u64
decode_statement-statement_val strkey codec s w =
    let o = decode_address-scv_address strkey codec s.operator w.operator w.operator_eq in
    let c = decode_address-scv_address strkey codec s.consumer w.consumer w.consumer_eq in
    let t = decode_address-scv_address strkey codec s.token w.token w.token_eq in
    let h =
      decode_optional_address-scv_optional_address strkey codec s.channel w.channel w.channel_eq in
    let b = decode_scv_i128 s.amount_billed w.billed w.billed_eq in
    let d = decode_scv_i128 s.amount_settled w.settled w.settled_eq in
    rw
      (
        b,
        d,
        h,
        c,
        o,
        decode_unit_enum_variant-scv_protocol s.protocol,
        decode_unit_enum_variant-scv_protocol s.status,
        t,
        decode_bytes32-bytes s.usage_root w.usage_root_length,
      )
      refl
