-- ===== src/Merkle/Tree/Clash.antt =====
-- internal/merkle: the texts that `VerifyProof` hashes and those that `BuildTree` and the leaves hash.
use tallybook.Prelude.{
  ℕ, zero, suc, subst, ◌≡◌, ap, ◌∙◌, some, List, [], ◌∷◌, ◌++◌, All, length, get_elem?,
  append_assoc,
}
use tallybook.Prelude.Bytes.{Bytes}
use tallybook.Merkle.Tree.{Proof, fold, sorted_pair_hash}
use tallybook.Merkle.Tree.Pairs.{IsHash, PairText, Collides, pair-IsHash}

module _ (sha256 : Bytes → Bytes) where
  -- A leaf is the hash of a hash.
  abbrev pub IsLeaf : Bytes → Type 0
  IsLeaf l = (m : Bytes) × (IsHash m × (l ≡ sha256 m))

  -- A hash made of some leaves.
  pub data IsNode (leaves : List Bytes) : Bytes → Type 0 where
    leaf_node : {h : Bytes} (j : ℕ) → get_elem? leaves j ≡ some h → IsNode leaves h
    pair_node :
        {h : Bytes} (a b : Bytes)
        → IsNode leaves a
        → IsNode leaves b
        → h ≡ sorted_pair_hash sha256 a b
        → IsNode leaves h

  -- A text that is hashed on the way to a root of some leaves: the 32 bytes behind a leaf, or two
  -- nodes one after the other.
  pub data IsBuilt (leaves : List Bytes) (t : Bytes) : Type 0 where
    leaf_text : (j : ℕ) → get_elem? leaves j ≡ some (sha256 t) → IsHash t → IsBuilt leaves t
    node_text :
        (a b : Bytes) → IsNode leaves a → IsNode leaves b → PairText sha256 a b t → IsBuilt leaves t

  -- A text that is hashed on the way from one leaf, the hash of `m`, along a proof.
  pub data IsChecked (m : Bytes) (p : Proof) (t : Bytes) : Type 0 where
    own_text : t ≡ m → IsChecked m p t
    step_text :
        (q : Proof) (s : Bytes) (rest : Proof)
        → p ≡ q ++ (s ∷ rest)
        → PairText sha256 (fold sha256 (sha256 m) q) s t
        → IsChecked m p t

  -- Checking a proof and building a tree meet different texts with one hash.
  pub record Clash (leaves : List Bytes) (m : Bytes) (p : Proof) : Type 0 where
    pub checked : Bytes
    pub built : Bytes
    pub is_checked : IsChecked m p checked
    pub is_built : IsBuilt leaves built
    pub collides : Collides sha256 checked built

  IsChecked-snoc :
      (m : Bytes) (q : Proof) (s t : Bytes) → IsChecked m q t → IsChecked m (q ++ (s ∷ [])) t
  IsChecked-snoc m q s t (own_text e) = own_text e
  IsChecked-snoc m q s t (step_text r x rest e k) =
      step_text r x (rest ++ (s ∷ []))
        (ap (λ (y : Proof). y ++ (s ∷ [])) e ∙ append_assoc r (x ∷ rest) (s ∷ [])) k

  pub Clash-snoc :
      (leaves : List Bytes) (m : Bytes) (q : Proof) (s : Bytes)
      → Clash leaves m q
      → Clash leaves m (q ++ (s ∷ []))
  Clash-snoc leaves m q s c = record {
    checked = c.checked;
    built = c.built;
    is_checked = IsChecked-snoc m q s c.checked c.is_checked;
    is_built = c.is_built;
    collides = c.collides;
  }

  pub leaf_at :
      (leaves : List Bytes) (j : ℕ) (h : Bytes)
      → All IsLeaf leaves
      → get_elem? leaves j ≡ some h
      → IsLeaf h
  leaf_at [] j h k e = cc
  leaf_at (l ∷ ls) zero h k e = let same : l ≡ h = cc in subst IsLeaf same k.0
  leaf_at (l ∷ ls) (suc j) h k e = leaf_at ls j h k.1 e

  pub IsNode-IsHash :
      (sizes : (x : Bytes) → IsHash (sha256 x)) (leaves : List Bytes) (h : Bytes)
      → All IsLeaf leaves
      → IsNode leaves h
      → IsHash h
  IsNode-IsHash sizes leaves h each (leaf_node j e) =
      let (n, (_, f)) = leaf_at leaves j h each e in ap length f ∙ sizes n
  IsNode-IsHash sizes leaves h each (pair_node a b u v e) =
      ap length e ∙ pair-IsHash sha256 sizes a b
