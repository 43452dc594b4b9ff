-- ===== src/Merkle/Tree/Tests.antt =====
-- Runs of the tree builder over a toy hash, and the theorems at those runs.
use tallybook.Prelude.{◌≡◌, refl, List, [], ◌∷◌, arith}
use tallybook.Prelude.Bytes.{Bytes, bytes_eq, bytes_leb}
use tallybook.Prelude.Result.{ok, err}
use tallybook.Merkle.Tree.{Tree, duplicate_leaf, build_tree}
use tallybook.Merkle.Tree.Duplicates.{IsDistinct}
use tallybook.Merkle.Tree.Correct.{
  Proves, Explains, build_tree-Proves, build_tree_total, build_tree-Explains, build_tree-IsDistinct,
}

-- Stands for sha256: any function on byte strings will do.
abbrev toy_hash : Bytes → Bytes
toy_hash bs = 9 ∷ bs

abbrev three_leaves : List Bytes
three_leaves = (3 ∷ []) ∷ (1 ∷ []) ∷ (2 ∷ []) ∷ []

abbrev three_tree : Tree
three_tree = record {
  root = 9 ∷ 2 ∷ 9 ∷ 1 ∷ 3 ∷ [];
  proofs = ((1 ∷ []) ∷ (2 ∷ []) ∷ []) ∷ ((3 ∷ []) ∷ (2 ∷ []) ∷ []) ∷ ((9 ∷ 1 ∷ 3 ∷ []) ∷ []) ∷ [];
}

three_leaves-tree : build_tree toy_hash three_leaves ≡ ok three_tree
unfolding build_tree bytes_eq bytes_leb
three_leaves-tree = refl

twice_leaves : build_tree toy_hash ((3 ∷ []) ∷ (1 ∷ []) ∷ (3 ∷ []) ∷ []) ≡ err (duplicate_leaf 0 2)
unfolding build_tree bytes_eq bytes_leb
twice_leaves = refl

build_tree-Proves_example : Proves toy_hash three_leaves three_tree
build_tree-Proves_example = build_tree-Proves toy_hash three_leaves three_tree three_leaves-tree

build_tree-IsDistinct_example : IsDistinct three_leaves
build_tree-IsDistinct_example =
    build_tree-IsDistinct toy_hash three_leaves three_tree three_leaves-tree

build_tree_total_example : (t : Tree) × (build_tree toy_hash three_leaves ≡ ok t)
build_tree_total_example =
    build_tree_total toy_hash three_leaves (λ e. cc)
      (build_tree-IsDistinct toy_hash three_leaves three_tree three_leaves-tree) (omega arith)

build_tree-Explains_example : Explains ((3 ∷ []) ∷ (1 ∷ []) ∷ (3 ∷ []) ∷ []) (duplicate_leaf 0 2)
build_tree-Explains_example =
    build_tree-Explains toy_hash ((3 ∷ []) ∷ (1 ∷ []) ∷ (3 ∷ []) ∷ []) (duplicate_leaf 0 2)
      twice_leaves
