-- ===== src/Stellar/ScVal.antt =====
-- The SDK's value types, as far as internal/merkle and internal/stellar build or read them. An
-- `xdr.ScVal` is a tag with one pointer per kind of value; the model has a constructor for each
-- tag, with the value behind its pointer. `no_vec` and `no_map` are the values whose optional
-- vector or map is absent, which the wire format allows; `other` is every further tag.
use tallybook.Prelude.{ℕ, Bool, List, [], ◌∷◌}
use tallybook.Prelude.Bytes.{Bytes}
use tallybook.Prelude.Int.{ℤ}

-- `xdr.Int128Parts`: `Hi` is an int64 and `Lo` a uint64.
pub record Int128Parts : Type 0 where
  pub hi : ℤ
  pub lo : ℕ

pub data ScAddress : Type 0 where
  account : Bytes → ScAddress
  contract : Bytes → ScAddress
  other : ℕ → ScAddress

mutual
  pub data ScVal : Type 0 where
    bool : Bool → ScVal
    void : ScVal
    u32 : ℕ → ScVal
    i32 : ℤ → ScVal
    u64 : ℕ → ScVal
    i64 : ℤ → ScVal
    i128 : Int128Parts → ScVal
    bytes : Bytes → ScVal
    symbol : Bytes → ScVal
    string : Bytes → ScVal
    address : ScAddress → ScVal
    vec : Items → ScVal
    no_vec : ScVal
    map : Entries → ScVal
    no_map : ScVal
    other : ℕ → ScVal

  -- `[]xdr.ScVal`
  pub data Items : Type 0 where
    nil : Items
    cons : ScVal → Items → Items

  -- `[]xdr.ScMapEntry`, the key first.
  pub data Entries : Type 0 where
    end : Entries
    entry : ScVal → ScVal → Entries → Entries

-- `xdr.ScValType`
pub data ScValType : Type 0 where
  bool void u32 i32 u64 i64 i128 bytes symbol string address vec map : ScValType
  other : ℕ → ScValType

-- `v.Type`
unfoldable pub type_of : ScVal → ScValType
type_of (ScVal.bool b) = ScValType.bool
type_of ScVal.void = ScValType.void
type_of (ScVal.u32 n) = ScValType.u32
type_of (ScVal.i32 z) = ScValType.i32
type_of (ScVal.u64 n) = ScValType.u64
type_of (ScVal.i64 z) = ScValType.i64
type_of (ScVal.i128 p) = ScValType.i128
type_of (ScVal.bytes b) = ScValType.bytes
type_of (ScVal.symbol s) = ScValType.symbol
type_of (ScVal.string s) = ScValType.string
type_of (ScVal.address a) = ScValType.address
type_of (ScVal.vec xs) = ScValType.vec
type_of ScVal.no_vec = ScValType.vec
type_of (ScVal.map es) = ScValType.map
type_of ScVal.no_map = ScValType.map
type_of (ScVal.other t) = ScValType.other t

abbrev pub to_items : List ScVal → Items
to_items [] = Items.nil
to_items (v ∷ vs) = Items.cons v (to_items vs)

abbrev pub of_items : Items → List ScVal
of_items Items.nil = []
of_items (Items.cons v vs) = v ∷ of_items vs

pub record ScMapEntry : Type 0 where
  pub key : ScVal
  pub val : ScVal

abbrev pub to_entries : List ScMapEntry → Entries
to_entries [] = Entries.end
to_entries (e ∷ es) = Entries.entry e.key e.val (to_entries es)

abbrev pub of_entries : Entries → List ScMapEntry
of_entries Entries.end = []
of_entries (Entries.entry k v es) = record { key = k; val = v } ∷ of_entries es
