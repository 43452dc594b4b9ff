-- ===== src/Merkle/Tree/Correct.antt =====
-- `BuildTree` as a whole: its proofs verify, it succeeds on every input that it should, and what
-- each of its errors says of the leaves.
use native.Mathlib.Decide.{dec_le}
use native.Mathlib.Nat.{pow-suc}
use tallybook.Prelude.{
  zero, suc, ℕ, ◌^◌, ◌≤◌, ◌<◌, ◌≡◌, ◌≢◌, refl, ap, arith, some, List, [], ◌∷◌, length, get_or,
  get_elem?, get_elem?-get_or, get_or_of_get_elem?, lt-length_of_get_elem?, Option-cases, inl, inr,
  true,
}
use tallybook.Prelude.Bytes.{Bytes, bytes_eq_refl}
use tallybook.Prelude.Result.{Result, ok, err}
use tallybook.Merkle.Tree.{
  Proof, Tree, TreeError, empty_tree, duplicate_leaf, proof_too_long, stuck, max_proof_length, fold,
  verify_proof, check_duplicates, check_lengths, finish_tree, grow_tree, build_tree,
}
use tallybook.Merkle.Tree.Loop.{
  HasShortProofs, check_lengths_sound, check_lengths_complete, check_lengths_over, grown,
}
use tallybook.Merkle.Tree.Duplicates.{IsDistinct, check_duplicates_sound, none-IsDistinct}

pow_above : (n : ℕ) → n < 2 ^ n
pow_above zero = omega arith
pow_above (suc n) = omega (arith, pow_above n, pow-suc 2 n)

-- What an error says of the leaves; `stuck` never happens.
abbrev pub Explains : List Bytes → TreeError → Type 0
Explains leaves empty_tree = leaves ≡ []
Explains leaves (duplicate_leaf p q) =
    (p < q) × ((l : Bytes) × (get_elem? leaves p ≡ some l) × (get_elem? leaves q ≡ some l))
Explains leaves (proof_too_long i n) = (max_proof_length < n) × (2 ^ 32 < length leaves)
Explains leaves stuck = ⊥

module _ (sha256 : Bytes → Bytes) where
  -- The tree holds one proof for each leaf, and each is short and verifies its leaf.
  pub record Proves (leaves : List Bytes) (t : Tree) : Type 0 where
    pub one_each : length t.proofs ≡ length leaves
    pub verifies :
        (j : ℕ) (l : Bytes)
        → get_elem? leaves j ≡ some l
        → (p : Proof) × (get_elem? t.proofs j ≡ some p)
          × (verify_proof sha256 t.root l p ≡ true)
          × (length p ≤ max_proof_length)

  grown-Proves :
      (leaves : List Bytes) (root : Bytes) (Q : List Proof)
      → length Q ≡ length leaves
      → ((j : ℕ) → j < length leaves → fold sha256 (get_or leaves j []) (get_or Q j []) ≡ root)
      → HasShortProofs Q
      → Proves leaves (record { root = root; proofs = Q })
  unfolding verify_proof
  grown-Proves leaves root Q len reach short = record {
    one_each = len;
    verifies = λ j l e.
        let bound : j < length leaves = lt-length_of_get_elem? leaves j l e in
        (
          get_or Q j [],
          get_elem?-get_or Q j [] (omega (arith, len)),
          rw (← get_or_of_get_elem? leaves j l [] e, reach j bound) (bytes_eq_refl root),
          short j,
        );
  }

  -- The tree that is grown from some leaves, or the one error that is left.
  abbrev pub Outcome : List Bytes → Result TreeError Tree → Type 0
  Outcome leaves (ok t) = Proves leaves t
  Outcome leaves (err e) = Explains leaves e

  finish-Outcome :
      (leaves : List Bytes) (root : Bytes) (Q : List Proof)
      → length Q ≡ length leaves
      → ((j : ℕ) → j < length leaves → fold sha256 (get_or leaves j []) (get_or Q j []) ≡ root)
      → (length leaves ≤ 2 ^ 32 → HasShortProofs Q)
      → Outcome leaves (finish_tree root Q)
  unfolding finish_tree
  finish-Outcome leaves root Q len reach short = elim (Option-cases (check_lengths Q 0)) [
    | inl e ↦ rw (e, Outcome) (grown-Proves leaves root Q len reach (check_lengths_sound Q 0 e))
    | inr ((i, n), e) ↦ rw (e, Outcome) (check_lengths_over Q 0 i n e, over i n e)
  ]
    where
      over : (i n : ℕ) → check_lengths Q 0 ≡ some (i, n) → 2 ^ 32 < length leaves
      over i n e = elim (dec_le (length leaves) (2 ^ 32)) [
        | yes small ↦ cc (check_lengths_complete Q 0 (short small))
        | no large ↦ omega arith
      ]

  grow_tree-Outcome :
      (leaves : List Bytes) → 0 < length leaves → Outcome leaves (grow_tree sha256 leaves)
  unfolding grow_tree
  grow_tree-Outcome leaves some_leaf = elim (dec_le (length leaves) (2 ^ 32)) [
    | yes small ↦
        let (root, (Q, e, len, reach, short)) = grown sha256 leaves 32 some_leaf small in
        rw (e, Outcome) (finish-Outcome leaves root Q len reach (λ _. short))
    | no large ↦
        let (root, (Q, e, len, reach, short)) =
          grown sha256 leaves (length leaves) some_leaf
            (omega (arith, pow_above (length leaves))) in
        rw (e, Outcome) (finish-Outcome leaves root Q len reach (λ small. absurd (large small)))
  ]

  build_tree_lem : (leaves : List Bytes) → Outcome leaves (build_tree sha256 leaves)
  unfolding build_tree
  build_tree_lem [] = refl
  build_tree_lem (x ∷ ls) = elim (Option-cases (check_duplicates (x ∷ ls) 0 [])) [
    | inl e ↦ rw (e, Outcome) (grow_tree-Outcome (x ∷ ls) (omega arith))
    | inr ((p, q), e) ↦
        rw (e, Outcome)
          (check_duplicates_sound (get_elem? (x ∷ ls)) (x ∷ ls) 0 [] p q
            (λ m. ap (get_elem? (x ∷ ls)) (omega arith)) tt e)
  ]

  -- When `BuildTree` returns a tree, it holds one proof for each leaf, in the order of the leaves,
  -- and each proof verifies its leaf against the root and has at most 32 nodes.
  pub build_tree-Proves :
      (leaves : List Bytes) (t : Tree) → build_tree sha256 leaves ≡ ok t → Proves leaves t
  build_tree-Proves leaves t e = rw (e, Outcome) at (build_tree_lem leaves)

  -- On a non-empty list of at most 2 ^ 32 distinct leaves `BuildTree` returns a tree: its loop ends
  -- and no proof is over the cap.
  pub build_tree_total :
      (leaves : List Bytes)
      → leaves ≢ []
      → IsDistinct leaves
      → length leaves ≤ 2 ^ 32
      → (t : Tree) × (build_tree sha256 leaves ≡ ok t)
  build_tree_total leaves some_leaf distinct small =
      total (build_tree sha256 leaves) refl (build_tree_lem leaves)
    where
      total :
          (r : Result TreeError Tree)
          → build_tree sha256 leaves ≡ r
          → Outcome leaves r
          → (t : Tree) × (build_tree sha256 leaves ≡ ok t)
      total (ok t) e h = (t, e)
      total (err empty_tree) e h = absurd (some_leaf h)
      total (err (duplicate_leaf p q)) e (u, (l, a, b)) = absurd (omega (arith, distinct p q l a b))
      total (err (proof_too_long i n)) e h = absurd (omega arith)
      total (err stuck) e h = absurd h

  -- An error of `BuildTree` says what is wrong with the leaves: there are none, two given places
  -- hold the same leaf, or a proof has more than 32 nodes, which takes more than 2 ^ 32 leaves.
  -- The loop over the levels never fails to end.
  pub build_tree-Explains :
      (leaves : List Bytes) (e : TreeError) → build_tree sha256 leaves ≡ err e → Explains leaves e
  build_tree-Explains leaves e h = rw (h, Outcome) at (build_tree_lem leaves)

  -- A list with a repeated leaf is always refused.
  pub build_tree-IsDistinct :
      (leaves : List Bytes) (t : Tree) → build_tree sha256 leaves ≡ ok t → IsDistinct leaves
  unfolding build_tree
  build_tree-IsDistinct [] t e = cc
  build_tree-IsDistinct (x ∷ ls) t e = elim (Option-cases (check_duplicates (x ∷ ls) 0 [])) [
    | inl h ↦ none-IsDistinct (x ∷ ls) h
    | inr ((p, q), h) ↦ ground arith
  ]
