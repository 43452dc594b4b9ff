-- ===== src/Merkle/Leaf/Keys.antt =====
-- The order of the keys in a leaf's map, and which requests have a leaf.
use tallybook.Prelude.{
  ◌≡◌, refl, true, false, Option, none, some, arith, List, [], ◌∷◌, length, Option-cases, inl, inr,
}
use tallybook.Prelude.Bytes.{Bytes, bytes_leb}
use tallybook.Prelude.Int.{ℤ}
use tallybook.Prelude.Result.{ok, err, >>=-Through}
use tallybook.Stellar.ScVal.{ScVal, ScMapEntry, ScAddress}
use tallybook.Stellar.Xdr.{in_i128, i128_parts}
use tallybook.Stellar.Xdr.I128.{IsI128, in_i128-false}
use tallybook.Merkle.Leaf.{
  Record, LeafError, scv_i128, scv_address, leaf_entries, account_val, record_entries,
  encode_record, leaf,
}

-- The keys are symbols, each before the next in byte order.
abbrev pub Before : ScVal → List ScMapEntry → Type 0
Before k [] = Unit
Before k (e ∷ es) =
    (a : Bytes) × ((b : Bytes) × (k ≡ ScVal.symbol a)
      × (e.key ≡ ScVal.symbol b)
      × (bytes_leb b a ≡ false))

abbrev pub IsAscending : List ScMapEntry → Type 0
IsAscending [] = Unit
IsAscending (e ∷ es) = Before e.key es × IsAscending es

leaf_entries-IsAscending :
    (r : Record) (amount consumer : ScVal) → IsAscending (leaf_entries r amount consumer)
unfolding leaf_entries bytes_leb
leaf_entries-IsAscending r amount consumer = (
  (_, (_, refl, refl, refl)),
  (
    (_, (_, refl, refl, refl)),
    (
      (_, (_, refl, refl, refl)),
      (
        (_, (_, refl, refl, refl)),
        ((_, (_, refl, refl, refl)), ((_, (_, refl, refl, refl)), (tt, tt))),
      ),
    ),
  ),
)

module _ (decode_account : Bytes → Option Bytes) where
  -- What a request with a leaf looks like: an amount of an i128, and an account of 32 bytes.
  pub record HasEntries (r : Record) (es : List ScMapEntry) : Type 0 where
    pub value : ℤ
    pub raw : Bytes
    pub amount : r.amount ≡ some value
    pub range : in_i128 value ≡ true
    pub consumer : decode_account r.consumer ≡ some raw
    pub size : length raw ≡ 32
    pub entries :
        es ≡ leaf_entries r (ScVal.i128 (i128_parts value)) (ScVal.address (ScAddress.account raw))

  amount_inv :
      (a : Option ℤ) (w : ScVal)
      → scv_i128 a ≡ ok w
      → (v : ℤ) × (a ≡ some v) × (in_i128 v ≡ true) × (ScVal.i128 (i128_parts v) ≡ w)
  unfolding scv_i128
  amount_inv none w e = cc
  amount_inv (some v) w e = (v, refl, ground arith, ground arith)

  consumer_inv :
      (address : Bytes) (w : ScVal)
      → scv_address decode_account address ≡ ok w
      → (raw : Bytes) × (decode_account address ≡ some raw)
        × (length raw ≡ 32)
        × (ScVal.address (ScAddress.account raw) ≡ w)
  unfolding scv_address account_val
  consumer_inv address w e = elim (Option-cases (decode_account address)) [
    | inl d ↦ ground arith
    | inr (raw, d) ↦ (raw, d, ground arith, ground arith)
  ]

  pub record_entries-HasEntries :
      (r : Record) (es : List ScMapEntry)
      → record_entries decode_account r ≡ ok es
      → HasEntries r es
  unfolding record_entries
  record_entries-HasEntries r es e =
      let (a, ea, e') = >>=-Through (scv_i128 r.amount) _ e in
      let (c, ec, e'') = >>=-Through (scv_address decode_account r.consumer) _ e' in
      let (v, va, vr, vw) = amount_inv r.amount a ea in
      let (raw, rd, rl, rw') = consumer_inv r.consumer c ec in
      record {
        value = v;
        raw = raw;
        amount = va;
        range = vr;
        consumer = rd;
        size = rl;
        entries = rw (vw, rw') (cc e'');
      }

  -- The keys of every leaf's map are symbols in strictly ascending byte order, as the host wants.
  pub record_entries-IsAscending :
      (r : Record) (es : List ScMapEntry) → record_entries decode_account r ≡ ok es → IsAscending es
  record_entries-IsAscending r es e =
      let h = record_entries-HasEntries r es e in rw h.entries (leaf_entries-IsAscending r _ _)

  -- A request whose amount is no i128 has no leaf.
  pub leaf_out_of_range :
      (marshal : ScVal → Option Bytes) (sha256 : Bytes → Bytes) (r : Record) (v : ℤ)
      → r.amount ≡ some v
      → ¬ (IsI128 v)
      → leaf decode_account marshal sha256 r ≡ err (LeafError.out_of_i128_range v)
  unfolding leaf encode_record record_entries scv_i128
  leaf_out_of_range marshal sha256 r v e h = rw (e, in_i128-false v h)
