-- ===== src/Merkle/Tree.antt =====
-- internal/merkle/tree.go. A 32-byte array is a list of byte values, and `sha256` of the standard
-- library is a parameter. The parallel slices `level` and `groups` are one list of nodes; `proofs`
-- is the slice of the source, one proof for each leaf, written at the indices of a group.
pub mod Append
pub mod Spans
pub mod Levels
pub mod Duplicates
pub mod Loop
pub mod Correct
pub mod Pairs
pub mod Clash
pub mod Sound
mod Tests
use tallybook.Prelude.{
  ℕ, zero, suc, ◌+◌, Bool, true, false, Option, none, some, List, [], ◌∷◌, ◌++◌, length, replicate,
  ltb, if◌then◌else◌,
}
use tallybook.Prelude.Bytes.{Bytes, bytes_eq, bytes_leb}
use tallybook.Prelude.Result.{Result, ok, err, ◌>>=◌, ◌>>◌}

abbrev pub max_proof_length : ℕ
max_proof_length = 32

-- `type Proof [][32]byte`
abbrev pub Proof : Type 0
Proof = List Bytes

pub record Tree : Type 0 where
  pub root : Bytes
  pub proofs : List Proof

-- `stuck` is no error of the source: the loop over the levels ran out of fuel.
pub data TreeError : Type 0 where
  empty_tree : TreeError
  duplicate_leaf : ℕ → ℕ → TreeError
  proof_too_long : ℕ → ℕ → TreeError
  stuck : TreeError

-- `level[i]` and `groups[i]`.
pub record Node : Type 0 where
  pub hash : Bytes
  pub group : List ℕ

-- `seen[l]`, a map from leaves to their indices.
pub find_seen : Bytes → List (Bytes × ℕ) → Option ℕ
find_seen l [] = none
find_seen l ((k, i) ∷ seen) = if bytes_eq k l then some i else find_seen l seen

-- The loop over `leaves` that fills `seen`; `i` is the index of the first leaf of the list.
pub check_duplicates : List Bytes → ℕ → List (Bytes × ℕ) → Option (ℕ × ℕ)
unfolding find_seen
check_duplicates [] i seen = none
check_duplicates (l ∷ ls) i seen =
    let rest = check_duplicates ls (suc i) ((l, i) ∷ seen) in
    elim (find_seen l seen) [ some prior ↦ some (prior, i) | none ↦ rest ]

-- `proofs[idx] = append(proofs[idx], sibling)`
pub append_at : ℕ → Bytes → List Proof → List Proof
append_at idx sibling [] = []
append_at zero sibling (p ∷ proofs) = (p ++ (sibling ∷ [])) ∷ proofs
append_at (suc idx) sibling (p ∷ proofs) = p ∷ append_at idx sibling proofs

-- `for _, idx := range group { proofs[idx] = append(proofs[idx], sibling) }`
pub append_group : List ℕ → Bytes → List Proof → List Proof
unfolding append_at
append_group [] sibling proofs = proofs
append_group (idx ∷ group) sibling proofs =
    append_group group sibling (append_at idx sibling proofs)

-- `groups[i] = []int{i}`
pub leaf_nodes : List Bytes → ℕ → List Node
leaf_nodes [] i = []
leaf_nodes (l ∷ ls) i = record { hash = l; group = i ∷ [] } ∷ leaf_nodes ls (suc i)

-- The last loop: the first proof that is over the cap.
pub check_lengths : List Proof → ℕ → Option (ℕ × ℕ)
check_lengths [] i = none
check_lengths (p ∷ proofs) i =
    if ltb max_proof_length (length p) then some (i, length p) else check_lengths proofs (suc i)

finish_tree : Bytes → List Proof → Result TreeError Tree
unfolding check_lengths
finish_tree root proofs = elim (check_lengths proofs 0) [
  | some (i, n) ↦ err (proof_too_long i n)
  | none ↦ ok (record { root = root; proofs = proofs })
]

module _ (sha256 : Bytes → Bytes) where
  pub sorted_pair_hash : Bytes → Bytes → Bytes
  sorted_pair_hash a b = if bytes_leb a b then sha256 (a ++ b) else sha256 (b ++ a)

  pub fold : Bytes → Proof → Bytes
  unfolding sorted_pair_hash
  fold node [] = node
  fold node (sibling ∷ proof) = fold (sorted_pair_hash node sibling) proof

  unfoldable pub verify_proof : Bytes → Bytes → Proof → Bool
  unfolding fold
  verify_proof root leaf proof = bytes_eq (fold leaf proof) root

  -- The node over a pair, and one pass of the inner loop, which pairs neighbours and promotes an
  -- odd one out.
  abbrev join : Node → Node → Node
  join a b = record { hash = sorted_pair_hash a.hash b.hash; group = a.group ++ b.group }

  pub next_level : List Node → List Proof → List Node × List Proof
  unfolding append_group sorted_pair_hash
  next_level [] proofs = ([], proofs)
  next_level (a ∷ []) proofs = (a ∷ [], proofs)
  next_level (a ∷ b ∷ rest) proofs =
      let (level, proofs') =
        next_level rest (append_group b.group a.hash (append_group a.group b.hash proofs)) in
      (join a b ∷ level, proofs')

  -- `for len(level) > 1`; a round of fuel for each level.
  pub build_levels : ℕ → List Node → List Proof → Option (Bytes × List Proof)
  unfolding next_level
  build_levels fuel [] proofs = none
  build_levels fuel (root ∷ []) proofs = some (root.hash, proofs)
  build_levels zero (a ∷ b ∷ rest) proofs = none
  build_levels (suc fuel) (a ∷ b ∷ rest) proofs =
      let (level, proofs') = next_level (a ∷ b ∷ rest) proofs in build_levels fuel level proofs'

  grow_tree : List Bytes → Result TreeError Tree
  unfolding finish_tree build_levels leaf_nodes
  grow_tree leaves =
      elim (build_levels (length leaves) (leaf_nodes leaves 0) (replicate (length leaves) [])) [
        | none ↦ err stuck
        | some (root, proofs) ↦ finish_tree root proofs
      ]

  unfoldable pub build_tree : List Bytes → Result TreeError Tree
  unfolding grow_tree check_duplicates
  build_tree [] = err empty_tree
  build_tree (l ∷ ls) = elim (check_duplicates (l ∷ ls) 0 []) [
    | some (prior, i) ↦ err (duplicate_leaf prior i)
    | none ↦ grow_tree (l ∷ ls)
  ]
