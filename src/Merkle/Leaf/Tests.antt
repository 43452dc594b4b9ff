-- ===== src/Merkle/Leaf/Tests.antt =====
-- A leaf over toy formats, and the theorems at it.
use native.Mathlib.Decide.{ℕ_discrete}
use mathlib.Core.Logic.{ite, if_pos, if_neg}
use tallybook.Prelude.{
  ℕ, ◌+◌, ◌*◌, ◌-◌, ◌^◌, ◌≡◌, refl, ap, ◌⊎◌, ◌∙◌, sym, Option, none, some, arith, List, [], ◌∷◌,
  ◌++◌, replicate, ◌==◌, if◌then◌else◌,
}
use tallybook.Prelude.Bytes.{Bytes, bytes_eq}
use tallybook.Prelude.Int.{negsuc}
use tallybook.Prelude.Result.{ok}
use tallybook.Stellar.ScVal.{ScVal, ScMapEntry, ScAddress, to_entries}
use tallybook.Stellar.Xdr.{in_i128, i128_parts}
use tallybook.Merkle.Leaf.{Record, leaf_entries, record_entries, encode_record, leaf}
use tallybook.Merkle.Leaf.Keys.{IsAscending, record_entries-IsAscending}
use tallybook.Merkle.Tree.{Tree}
use tallybook.Merkle.Leaf.Injective.{LeafCollision, leaf-injective}

-- A strkey is its raw key behind the letter G.
abbrev toy_decode : Bytes → Option Bytes
toy_decode [] = none
toy_decode (b ∷ raw) = if b == b'G' then some raw else none

toy_decode-injective : (a b raw : Bytes) → toy_decode a ≡ some raw → toy_decode b ≡ some raw → a ≡ b
toy_decode-injective [] b raw e f = cc
toy_decode-injective (x ∷ a) [] raw e f = cc
toy_decode-injective (x ∷ a) (y ∷ b) raw e f = ground arith

abbrev toy_hash : Bytes → Bytes
toy_hash bs = 9 ∷ bs

abbrev request : Record
request = record {
  amount = some (negsuc 4);
  consumer = b'G' ∷ replicate 32 7;
  endpoint_hash = replicate 32 1;
  ledger = 12;
  price_version = 3;
  request_id = replicate 32 2;
  units = 5;
}

abbrev request_entries : List ScMapEntry
request_entries =
    leaf_entries request (ScVal.i128 (record { hi = negsuc 0; lo = 2 ^ 64 - 5 }))
      (ScVal.address (ScAddress.account (replicate 32 7)))

request-entries : record_entries toy_decode request ≡ ok request_entries
unfolding record_entries in_i128 i128_parts leaf_entries
request-entries = refl

record_entries-IsAscending_example : IsAscending request_entries
record_entries-IsAscending_example =
    record_entries-IsAscending toy_decode request request_entries request-entries

ScVal-discrete : Discrete ScVal
ScVal-discrete = hlevel (ℕ_discrete)

-- The same request at the next ledger.
abbrev later_request : Record
later_request = record request { ledger = 13 }

abbrev first_value : ScVal
first_value = ScVal.map (to_entries request_entries)

abbrev later_value : ScVal
later_value = ScVal.map (
    to_entries (
      leaf_entries later_request (ScVal.i128 (record { hi = negsuc 0; lo = 2 ^ 64 - 5 }))
        (ScVal.address (ScAddress.account (replicate 32 7)))))

-- An encoding of those two values.
toy_marshal : ScVal → Option Bytes
toy_marshal v =
    ite (ScVal-discrete v first_value) (some (1 ∷ []))
      (ite (ScVal-discrete v later_value) (some (2 ∷ [])) none)

toy_unmarshal : Bytes → ScVal
toy_unmarshal bs = if bytes_eq bs (1 ∷ []) then first_value else later_value

toy_marshal-some : (v : ScVal) (bs : Bytes) → toy_marshal v ≡ some bs → v ≡ toy_unmarshal bs
unfolding toy_marshal toy_unmarshal bytes_eq
toy_marshal-some v bs e = elim (ScVal-discrete v first_value) [
  | yes p ↦ let same : 1 ∷ [] ≡ bs = cc (rw (if_pos _ p) at e) in p ∙ ap toy_unmarshal same
  | no p ↦ elim (ScVal-discrete v later_value) [
    | yes q ↦
        let same : 2 ∷ [] ≡ bs = cc (rw (if_neg _ p, if_pos _ q) at e) in q ∙ ap toy_unmarshal same
    | no q ↦ cc (rw (if_neg _ p, if_neg _ q) at e)
  ]
]

toy_marshal-injective :
    (v w : ScVal) (bs : Bytes) → toy_marshal v ≡ some bs → toy_marshal w ≡ some bs → v ≡ w
toy_marshal-injective v w bs e f = toy_marshal-some v bs e ∙ sym (toy_marshal-some w bs f)

toy_marshal-request : toy_marshal first_value ≡ some (1 ∷ [])
unfolding toy_marshal
toy_marshal-request = if_pos (ScVal-discrete first_value first_value) refl _ _

request-leaf : leaf toy_decode toy_marshal toy_hash request ≡ ok (9 ∷ 9 ∷ 1 ∷ [])
unfolding leaf leaf_entries record_entries encode_record in_i128 i128_parts
request-leaf = rw toy_marshal-request

leaf-injective_example :
    (request ≡ request)
    ⊎ LeafCollision toy_decode toy_decode-injective toy_marshal toy_marshal-injective toy_hash
        request request
        (9 ∷ 9 ∷ 1 ∷ [])
leaf-injective_example =
    leaf-injective toy_decode toy_decode-injective toy_marshal toy_marshal-injective toy_hash
      request request (9 ∷ 9 ∷ 1 ∷ []) request-leaf request-leaf

-- Gives 32 bytes, all of them a number made of the text.
abbrev number : Bytes → ℕ
number [] = 1
number (b ∷ bs) = b + 3 * number bs

abbrev digest : Bytes → Bytes
digest bs = replicate 32 (number bs)

abbrev first_leaf : Bytes
first_leaf = digest (digest (1 ∷ []))

abbrev later_leaf : Bytes
later_leaf = digest (digest (2 ∷ []))

abbrev two_tree : Tree
two_tree = record {
  root = digest (first_leaf ++ later_leaf);
  proofs = (later_leaf ∷ []) ∷ (first_leaf ∷ []) ∷ [];
}
