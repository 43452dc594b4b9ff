-- ===== src/Stellar/Xdr.antt =====
-- internal/stellar/xdr.go: Go values to `xdr.ScVal` and back. A `*big.Int` that may be nil is an
-- `Option ℤ`; a strkey codec of the SDK is the parameter `Strkey`.
pub mod I128
pub mod Address
pub mod Fields
mod Tests
use tallybook.Prelude.{
  ℕ, zero, suc, ◌+◌, ◌-◌, ◌*◌, ◌/◌, ◌%◌, ◌^◌, ◌≡◌, Bool, true, false, Option, none, some, List, [],
  ◌∷◌, ◌++◌, take, drop, length, ltb, leb, ◌==◌, if◌then◌else◌, ◌||◌, not,
}
use mathlib.Core.List.{foldl}
use tallybook.Prelude.Bytes.{Bytes, bytes_eq}
use tallybook.Prelude.Int.{ℤ, pos, negsuc, pos_part, neg_part, ltb_ℤ, ◌-ℤ◌}
use tallybook.Prelude.Result.{Result, ok, err, ◌>>=◌, ◌>>◌, fail_if, or_fail, map_err}
use tallybook.Stellar.ScVal.{
  Int128Parts, ScAddress, ScVal, Items, Entries, ScValType, type_of, ScMapEntry, to_items, of_items,
  to_entries, of_entries,
}

pub data XdrError : Type 0 where
  nil_i128 : XdrError
  out_of_i128_range : ℤ → XdrError
  wrong_sc_val_type : ScValType → ScValType → XdrError
  bad_strkey : Bytes → XdrError
  bad_address_length : ℕ → XdrError
  not_an_address : Bytes → XdrError
  unencodable_address : XdrError
  unsupported_address : ℕ → XdrError
  missing_field : Bytes → XdrError
  bad_enum_length : ℕ → XdrError
  bad_bytes_length : ℕ → XdrError
  bad_base64 : XdrError
  bad_sc_val : XdrError
  marshal_failed : XdrError
  bad_event_length : ℕ → ℕ → XdrError
  index_out_of_range : ℕ → XdrError
  call_failed : Bytes → XdrError
  in_field : Bytes → XdrError → XdrError

abbrev pub X : Type 0 → Type 0
X A = Result XdrError A

-- `i128Min` and `i128Max`
abbrev pub i128_min : ℤ
i128_min = negsuc (2 ^ 127 - 1)

abbrev pub i128_max : ℤ
i128_max = pos (2 ^ 127 - 1)

-- `x.FillBytes(buf)` for a buffer of `n` bytes: the big-endian bytes of `x`.
unfoldable pub fill_bytes : ℕ → ℕ → Bytes
fill_bytes zero x = []
fill_bytes (suc n) x = fill_bytes n (x / 256) ++ (x % 256 ∷ [])

-- `uint64(b0)<<56 | … | uint64(b7)`; the shifted bytes share no bit, so `|` adds them.
unfoldable pub big_endian : Bytes → ℕ
big_endian = foldl (λ acc b. acc * 256 + b) 0

-- `int64(u)` of a uint64, and `uint64(i)` of an int64: the same bits.
unfoldable pub to_int64 : ℕ → ℤ
to_int64 u = if ltb u (2 ^ 63) then pos u else negsuc (2 ^ 64 - 1 - u)

unfoldable pub to_uint64 : ℤ → ℕ
to_uint64 (pos n) = n
to_uint64 (negsuc n) = 2 ^ 64 - 1 - n

-- `unsigned`: `v` itself, or 2^128 + v where v is negative.
unfoldable pub unsigned_of : ℤ → ℕ
unsigned_of (pos n) = n
unsigned_of (negsuc n) = 2 ^ 128 - suc n

unfoldable pub in_i128 : ℤ → Bool
in_i128 v = not (ltb_ℤ v i128_min || ltb_ℤ i128_max v)

-- The halves of `buf`: its first eight bytes and its last eight.
unfoldable pub i128_parts : ℤ → Int128Parts
unfolding fill_bytes big_endian to_int64 unsigned_of
i128_parts v =
    let unsigned = unsigned_of v in
    record {
      hi = to_int64 (big_endian (take 8 (fill_bytes 16 unsigned)));
      lo = big_endian (drop 8 (fill_bytes 16 unsigned));
    }

unfoldable pub scv_i128 : Option ℤ → X ScVal
scv_i128 none = err XdrError.nil_i128
scv_i128 (some v) =
    if in_i128 v then ok (ScVal.i128 (i128_parts v)) else err (XdrError.out_of_i128_range v)

-- `ErrWrongScValType`
abbrev wrong_type : {A : Type 0} → ScValType → ScVal → X A
wrong_type want v = err (XdrError.wrong_sc_val_type want (type_of v))

unfoldable pub decode_bool : ScVal → X Bool
unfolding type_of
decode_bool (ScVal.bool b) = ok b
decode_bool v = wrong_type ScValType.bool v

unfoldable pub decode_u32 : ScVal → X ℕ
unfolding type_of
decode_u32 (ScVal.u32 n) = ok n
decode_u32 v = wrong_type ScValType.u32 v

unfoldable pub decode_i32 : ScVal → X ℤ
unfolding type_of
decode_i32 (ScVal.i32 z) = ok z
decode_i32 v = wrong_type ScValType.i32 v

unfoldable pub decode_u64 : ScVal → X ℕ
unfolding type_of
decode_u64 (ScVal.u64 n) = ok n
decode_u64 v = wrong_type ScValType.u64 v

unfoldable pub decode_i64 : ScVal → X ℤ
unfolding type_of
decode_i64 (ScVal.i64 z) = ok z
decode_i64 v = wrong_type ScValType.i64 v

-- The halves put together again: `hi << 64 | lo`, less 2^128 where `Hi` is negative.
unfoldable pub i128_value : Int128Parts → ℤ
unfolding to_uint64
i128_value p =
    let unsigned = to_uint64 p.hi * 2 ^ 64 + p.lo in
    elim p.hi [ pos _ ↦ pos unsigned | negsuc _ ↦ pos unsigned -ℤ pos (2 ^ 128) ]

unfoldable pub decode_i128 : ScVal → X ℤ
unfolding type_of i128_value
decode_i128 (ScVal.i128 p) = ok (i128_value p)
decode_i128 v = wrong_type ScValType.i128 v

unfoldable pub decode_bytes : ScVal → X Bytes
unfolding type_of
decode_bytes (ScVal.bytes b) = ok b
decode_bytes v = wrong_type ScValType.bytes v

unfoldable pub decode_symbol : ScVal → X Bytes
unfolding type_of
decode_symbol (ScVal.symbol s) = ok s
decode_symbol v = wrong_type ScValType.symbol v

unfoldable pub decode_string : ScVal → X Bytes
unfolding type_of
decode_string (ScVal.string s) = ok s
decode_string v = wrong_type ScValType.string v

unfoldable pub decode_vec : ScVal → X (List ScVal)
unfolding type_of
decode_vec (ScVal.vec xs) = ok (of_items xs)
decode_vec v = wrong_type ScValType.vec v

-- A Go map from field names to values. `insert` is `m[key] = v`, `lookup` is `m[key]`.
abbrev pub Fields : Type 0
Fields = List (Bytes × ScVal)

unfoldable pub insert : Bytes → ScVal → Fields → Fields
insert k v [] = (k, v) ∷ []
insert k v ((j, w) ∷ m) = if bytes_eq j k then (k, v) ∷ m else (j, w) ∷ insert k v m

unfoldable pub lookup : Bytes → Fields → Option ScVal
lookup k [] = none
lookup k ((j, v) ∷ m) = if bytes_eq j k then some v else lookup k m

-- The loop over the entries of a map; `out` is the Go map so far.
unfoldable pub decode_entries : List ScMapEntry → Fields → X Fields
unfolding decode_symbol insert
decode_entries [] out = ok out
decode_entries (e ∷ es) out = elim (decode_symbol e.key) [
  | ok key ↦ decode_entries es (insert key e.val out)
  | err x ↦ err x
]

unfoldable pub decode_map : ScVal → X Fields
unfolding type_of decode_entries
decode_map (ScVal.map es) = decode_entries (of_entries es) []
decode_map v = wrong_type ScValType.map v

unfoldable pub map_field : Fields → Bytes → X ScVal
unfolding lookup
map_field m key = or_fail (lookup key m) (XdrError.missing_field key)

-- The encoders that cannot fail; a text's length is left to the XDR encoder.
abbrev pub scv_vec : List ScVal → ScVal
scv_vec vs = ScVal.vec (to_items vs)

abbrev pub map_entry : Bytes → ScVal → ScMapEntry
map_entry key val = record { key = ScVal.symbol key; val = val }

abbrev pub scv_map : List ScMapEntry → ScVal
scv_map es = ScVal.map (to_entries es)

-- The kinds of strkey: G… accounts, C… contracts, and the rest.
pub data Version : Type 0 where
  account contract : Version
  other : ℕ → Version

-- The SDK's strkey codec: `DecodeAny`, and `Encode`, both of which can fail.
pub record Strkey : Type 0 where
  pub decode_any : Bytes → Option (Version × Bytes)
  pub encode : Version → Bytes → Option Bytes

-- What the code relies on: an encoded key decodes to itself, and a decoded text is the canonical
-- encoding of its key.
pub record IsCodec (s : Strkey) : Type 0 where
  pub decode-encode :
      (v : Version) (raw text : Bytes)
      → s.encode v raw ≡ some text
      → s.decode_any text ≡ some (v, raw)
  pub encode-decode :
      (v : Version) (raw text : Bytes)
      → s.decode_any text ≡ some (v, raw)
      → s.encode v raw ≡ some text

module _ (strkey : Strkey) where
  address_of : Bytes → Version → Bytes → X ScAddress
  address_of text version raw =
      if length raw == 32
      then elim version [
        | account ↦ ok (ScAddress.account raw)
        | contract ↦ ok (ScAddress.contract raw)
        | other _ ↦ err (XdrError.not_an_address text)
      ]
      else err (XdrError.bad_address_length (length raw))

  unfoldable pub sc_address : Bytes → X ScAddress
  unfolding address_of
  sc_address text = elim (strkey.decode_any text) [
    | none ↦ err (XdrError.bad_strkey text)
    | some (version, raw) ↦ address_of text version raw
  ]

  unfoldable pub scv_address : Bytes → X ScVal
  unfolding sc_address
  scv_address text = do addr ← sc_address text; ok (ScVal.address addr)

  encode_address : ScAddress → X Bytes
  encode_address (ScAddress.account raw) =
      or_fail (strkey.encode Version.account raw) XdrError.unencodable_address
  encode_address (ScAddress.contract raw) =
      or_fail (strkey.encode Version.contract raw) XdrError.unencodable_address
  encode_address (ScAddress.other t) = err (XdrError.unsupported_address t)

  unfoldable pub decode_address : ScVal → X Bytes
  unfolding type_of encode_address
  decode_address (ScVal.address a) = encode_address a
  decode_address v = wrong_type ScValType.address v
