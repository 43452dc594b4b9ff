-- ===== src/Merkle/Leaf/Injective.antt =====
-- Different requests have different leaves, short of a collision of sha256.
use tallybook.Prelude.{
  ◌≡◌, ap, sym, ◌∙◌, ◌≢◌, ◌⊎◌, inl, inr, false, Option, none, some, List, Bool-cases,
}
use tallybook.Prelude.Bytes.{Bytes, bytes_eq, bytes_eq_iff}
use tallybook.Prelude.Result.{ok, or_fail, >>=-Through}
use tallybook.Stellar.ScVal.{ScVal, ScMapEntry, to_entries}
use tallybook.Stellar.Xdr.{i128_parts, i128_value}
use tallybook.Stellar.Xdr.I128.{IsI128-of_in_i128, i128_value-i128_parts}
use tallybook.Merkle.Leaf.{
  Record, marshal_failed, leaf_entries, record_entries, encode_record, leaf,
}
use tallybook.Merkle.Leaf.Keys.{HasEntries, record_entries-HasEntries}

-- Where in a double hash of two texts the collision is: of the texts, or of their hashes.
abbrev pub CollisionAt : (Bytes → Bytes) → Bytes → Bytes → Type 0
CollisionAt sha256 x y =
    ((x ≢ y) × (sha256 x ≡ sha256 y))
    ⊎ ((sha256 x ≢ sha256 y) × (sha256 (sha256 x) ≡ sha256 (sha256 y)))

double_hash :
    (sha256 : Bytes → Bytes) (x y : Bytes)
    → sha256 (sha256 x) ≡ sha256 (sha256 y)
    → (x ≡ y) ⊎ CollisionAt sha256 x y
double_hash sha256 x y e = elim (Bool-cases (bytes_eq x y)) [
  | inl same ↦ inl ((bytes_eq_iff x y).0 same)
  | inr differ ↦ inr (elim (Bool-cases (bytes_eq (sha256 x) (sha256 y))) [
    | inl same ↦ inl (apart x y differ, (bytes_eq_iff _ _).0 same)
    | inr other ↦ inr (apart _ _ other, e)
  ])
]
  where
    apart : (a b : Bytes) → bytes_eq a b ≡ false → a ≢ b
    apart a b h p = cc ((bytes_eq_iff a b).1 p)

-- The fields that stand in a leaf's map.
entries_fields :
    (r s : Record) (a b c d : ScVal)
    → ScVal.map (to_entries (leaf_entries r a c)) ≡ ScVal.map (to_entries (leaf_entries s b d))
    → (a ≡ b)
      × (c ≡ d)
      × (r.endpoint_hash ≡ s.endpoint_hash)
      × (r.ledger ≡ s.ledger)
      × (r.price_version ≡ s.price_version)
      × (r.request_id ≡ s.request_id)
      × (r.units ≡ s.units)
unfolding leaf_entries
entries_fields r s a b c d e = (cc, cc, cc, cc, cc, cc, cc)

module _ (decode_account : Bytes → Option Bytes)
    (one_text : (a b raw : Bytes)
      → decode_account a ≡ some raw
      → decode_account b ≡ some raw
      → a ≡ b)
    (marshal : ScVal → Option Bytes)
    (one_value : (v w : ScVal) (bs : Bytes) → marshal v ≡ some bs → marshal w ≡ some bs → v ≡ w)
    (sha256 : Bytes → Bytes) where
  HasEntries-injective :
      (r s : Record) (es fs : List ScMapEntry)
      → HasEntries decode_account r es
      → HasEntries decode_account s fs
      → ScVal.map (to_entries es) ≡ ScVal.map (to_entries fs)
      → r ≡ s
  HasEntries-injective r s es fs h k e =
      let same : ScVal.map (to_entries (leaf_entries r _ _))
          ≡ ScVal.map (to_entries (leaf_entries s _ _)) =
        rw (h.entries, k.entries) at e in
      let (amounts, keys, endpoint, ledger, price, request, units) =
        entries_fields r s _ _ _ _ same in
      let parts : i128_parts h.value ≡ i128_parts k.value = cc in
      let values : h.value ≡ k.value =
        sym (i128_value-i128_parts h.value (IsI128-of_in_i128 h.value h.range))
        ∙ ap i128_value parts
        ∙ i128_value-i128_parts k.value (IsI128-of_in_i128 k.value k.range) in
      let raws : h.raw ≡ k.raw = cc in
      let consumers : r.consumer ≡ s.consumer =
        one_text r.consumer s.consumer k.raw (h.consumer ∙ ap some raws) k.consumer in
      let sums : r.amount ≡ s.amount = h.amount ∙ ap some values ∙ sym k.amount in
      λ i. record {
        amount = sums i;
        consumer = consumers i;
        endpoint_hash = endpoint i;
        ledger = ledger i;
        price_version = price i;
        request_id = request i;
        units = units i;
      }

  or_fail-eq-ok : (o : Option Bytes) (bs : Bytes) → or_fail o marshal_failed ≡ ok bs → o ≡ some bs
  or_fail-eq-ok none bs e = cc
  or_fail-eq-ok (some x) bs e = cc

  encode_record-injective :
      (r s : Record) (bs : Bytes)
      → encode_record decode_account marshal r ≡ ok bs
      → encode_record decode_account marshal s ≡ ok bs
      → r ≡ s
  unfolding encode_record
  encode_record-injective r s bs e f =
      let (es, er, e') = >>=-Through (record_entries decode_account r) _ e in
      let (fs, fr, f') = >>=-Through (record_entries decode_account s) _ f in
      HasEntries-injective r s es fs (record_entries-HasEntries decode_account r es er)
        (record_entries-HasEntries decode_account s fs fr)
        (one_value _ _ bs (or_fail-eq-ok _ bs e') (or_fail-eq-ok _ bs f'))

  -- The encodings of two requests collide, where the leaf hashes them: they have one sha256 and
  -- differ, or their hashes differ and have one sha256, which is the leaf.
  pub record LeafCollision (r s : Record) (l : Bytes) : Type 0 where
    pub first : Bytes
    pub second : Bytes
    pub encoded_first : encode_record decode_account marshal r ≡ ok first
    pub encoded_second : encode_record decode_account marshal s ≡ ok second
    pub leaf_first : sha256 (sha256 first) ≡ l
    pub leaf_second : sha256 (sha256 second) ≡ l
    pub collision : CollisionAt sha256 first second

  -- Two requests with one leaf are the same request, in every field, unless their leaf shows a
  -- collision: their two encodings have one sha256 and differ, or the hashes of these differ and
  -- both have the leaf as their sha256. It rests on the SDK's formats being unambiguous: an account
  -- key has one text, and a byte string is the XDR of one value.
  pub leaf-injective :
      (r s : Record) (l : Bytes)
      → leaf decode_account marshal sha256 r ≡ ok l
      → leaf decode_account marshal sha256 s ≡ ok l
      → (r ≡ s) ⊎ LeafCollision r s l
  unfolding leaf
  leaf-injective r s l e f =
      let (x, ex, e') = >>=-Through (encode_record decode_account marshal r) _ e in
      let (y, ey, f') = >>=-Through (encode_record decode_account marshal s) _ f in
      elim (double_hash sha256 x y (cc)) [
        | inl same ↦ inl (encode_record-injective r s y (ex ∙ ap ok same) ey)
        | inr collision ↦ inr (record {
          first = x;
          second = y;
          encoded_first = ex;
          encoded_second = ey;
          leaf_first = cc;
          leaf_second = cc;
          collision = collision;
        })
      ]
