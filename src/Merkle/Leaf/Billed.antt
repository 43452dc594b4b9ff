-- ===== src/Merkle/Leaf/Billed.antt =====
-- A proof that verifies against the root of a tree of requests shows that the request is one of
-- them.
use tallybook.Prelude.{ℕ, ◌≡◌, Option, some, List, [], ◌∷◌, get_elem?}
use tallybook.Prelude.Bytes.{Bytes}
use tallybook.Prelude.Result.{ok}
use tallybook.Stellar.ScVal.{ScVal}
use tallybook.Merkle.Tree.{Proof, Tree}
use tallybook.Merkle.Tree.Pairs.{IsHash}
use tallybook.Merkle.Tree.Clash.{Clash}
use tallybook.Merkle.Leaf.{Record, encode_record, leaf}
use tallybook.Merkle.Leaf.Injective.{LeafCollision}

module _ (decode_account : Bytes → Option Bytes)
    (one_text : (a b raw : Bytes)
      → decode_account a ≡ some raw
      → decode_account b ≡ some raw
      → a ≡ b)
    (marshal : ScVal → Option Bytes)
    (one_value : (v w : ScVal) (bs : Bytes) → marshal v ≡ some bs → marshal w ≡ some bs → v ≡ w)
    (sha256 : Bytes → Bytes) (sizes : (x : Bytes) → IsHash (sha256 x)) where
  -- The leaves of some requests, in their order.
  abbrev pub Leaves : List Record → List Bytes → Type 0
  Leaves [] [] = Unit
  Leaves [] (l ∷ ls) = ⊥
  Leaves (r ∷ rs) [] = ⊥
  Leaves (r ∷ rs) (l ∷ ls) = (leaf decode_account marshal sha256 r ≡ ok l) × Leaves rs ls

  -- What a verified request is: one of the requests; or checking its proof and building the tree
  -- hash two different texts to one sha256; or one of the requests differs from it and collides with
  -- it in their common leaf.
  pub data IsBilled (rs : List Record) (leaves : List Bytes) (r : Record) (l : Bytes) (p : Proof)
      : Type 0 where
    billed : (j : ℕ) → get_elem? rs j ≡ some r → IsBilled rs leaves r l p
    clashes :
        (bytes : Bytes)
        → encode_record decode_account marshal r ≡ ok bytes
        → Clash sha256 leaves (sha256 bytes) p
        → IsBilled rs leaves r l p
    shares_leaf :
        (j : ℕ) (q : Record)
        → get_elem? rs j ≡ some q
        → LeafCollision decode_account one_text marshal one_value sha256 q r l
        → IsBilled rs leaves r l p
