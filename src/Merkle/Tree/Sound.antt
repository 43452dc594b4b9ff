-- ===== src/Merkle/Tree/Sound.antt =====
-- `VerifyProof` over the leaves of internal/merkle/leaf.go, which are hashes of 32-byte hashes: a
-- pair of nodes has 64 bytes, so no inner node passes for a leaf and no leaf for an inner node.
use tallybook.Prelude.{
  ℕ, zero, suc, ◌≡◌, ◌⊎◌, refl, ap, sym, ◌∙◌, subst, arith, some, List, [], ◌∷◌, ◌++◌, All, length,
  get_elem?, replicate, true, Option-cases, inl, inr,
}
use tallybook.Prelude.Bytes.{Bytes, bytes_eq_iff}
use tallybook.Prelude.Result.{ok}
use tallybook.Merkle.Tree.{
  Proof, Tree, Node, fold, verify_proof, sorted_pair_hash, next_level, build_levels, leaf_nodes,
  check_lengths, finish_tree, grow_tree, check_duplicates, build_tree,
}
use tallybook.Merkle.Tree.Spans.{fold_snoc}
use tallybook.Merkle.Tree.Pairs.{IsHash, pair_text, pair_first, pair_apart, fold-IsHash}
use tallybook.Merkle.Tree.Clash.{
  IsLeaf, IsNode, leaf_node, pair_node, leaf_text, node_text, own_text, step_text, Clash,
  Clash-snoc, leaf_at, IsNode-IsHash,
}

-- The last step of a proof.
snoc_cases :
    (p : Proof)
    → All IsHash p
    → (p ≡ []) ⊎ ((q : Proof) × ((s : Bytes) × (p ≡ q ++ (s ∷ [])) × All IsHash q × IsHash s))
snoc_cases [] h = inl refl
snoc_cases (x ∷ p) h = elim (snoc_cases p h.1) [
  | inl e ↦ inr ([], (x, ap (λ (r : Proof). x ∷ r) e, tt, h.0))
  | inr (q, (s, e, k, l)) ↦ inr (x ∷ q, (s, ap (λ (r : Proof). x ∷ r) e, (h.0, k), l))
]

-- A hash stands in a level.
abbrev Among : Bytes → List Node → Type 0
Among h [] = ⊥
Among h (n ∷ ns) = (h ≡ n.hash) ⊎ Among h ns

module _ (sha256 : Bytes → Bytes) where
  -- A hash of the next level is one of the level, or one over two of the level.
  next_level-Among :
      (h : Bytes) (ns : List Node) (P : List Proof)
      → Among h (next_level sha256 ns P).0
      → Among h ns
        ⊎ ((a : Bytes) × ((b : Bytes) × (Among a ns
                × Among b ns
                × (h ≡ sorted_pair_hash sha256 a b))))
  unfolding next_level
  next_level-Among h [] P k = inl k
  next_level-Among h (a ∷ []) P k = inl k
  next_level-Among h (a ∷ b ∷ ns) P (inl e) = inr (a.hash, (b.hash, (inl refl, inr (inl refl), e)))
  next_level-Among h (a ∷ b ∷ ns) P (inr k) = elim (next_level-Among h ns _ k) [
    | inl old ↦ inl (inr (inr old))
    | inr (c, (d, (u, v, e))) ↦ inr (c, (d, (inr (inr u), inr (inr v), e)))
  ]

  -- What verifying comes to: the leaf is one of the tree's, or two texts that were hashed differ and
  -- have one hash.
  abbrev pub Stands : List Bytes → Bytes → Proof → Type 0
  Stands leaves m p = ((j : ℕ) × (get_elem? leaves j ≡ some (sha256 m))) ⊎ Clash sha256 leaves m p

  module _ (sizes : (x : Bytes) → IsHash (sha256 x)) (leaves : List Bytes)
      (each : All (IsLeaf sha256) leaves) (m : Bytes) (is_hash : IsHash m) where
    -- Whoever gets from the leaf to a hash of the level is done.
    abbrev Sound : List Node → Type 0
    Sound ns = (p : Proof) → All IsHash p → Among (fold sha256 (sha256 m) p) ns → Stands leaves m p

    abbrev Noded : List Node → Type 0
    Noded ns = (h : Bytes) → Among h ns → IsNode sha256 leaves h

    next_level-Noded :
        (ns : List Node) (P : List Proof) → Noded ns → Noded (next_level sha256 ns P).0
    next_level-Noded ns P h x k = elim (next_level-Among x ns P k) [
      | inl old ↦ h x old
      | inr (a, (b, (u, v, e))) ↦ pair_node a b (h a u) (h b v) e
    ]

    Stands-snoc : (q : Proof) (s : Bytes) → Stands leaves m q → Stands leaves m (q ++ (s ∷ []))
    Stands-snoc q s (inl found) = inl found
    Stands-snoc q s (inr c) = inr (Clash-snoc sha256 leaves m q s c)

    -- The leaf itself, or the leaf with one more step, under a hash over two nodes.
    own_pair :
        (a b : Bytes)
        → IsNode sha256 leaves a
        → IsNode sha256 leaves b
        → sha256 m ≡ sorted_pair_hash sha256 a b
        → Clash sha256 leaves m []
    own_pair a b u v e =
        let (t, x) = pair_text sha256 a b in
        let c =
          pair_apart sha256 a b m t (IsNode-IsHash sha256 sizes leaves a each u)
            (IsNode-IsHash sha256 sizes leaves b each v) is_hash x (sym e) in
        record {
          checked = m;
          built = t;
          is_checked = own_text refl;
          is_built = node_text a b u v x;
          collides = ((λ n. c.0 (sym n)), sym c.1);
        }

    step_pair :
        (ns : List Node) (a b : Bytes) (q : Proof) (s : Bytes)
        → Sound ns
        → Noded ns
        → Among a ns
        → Among b ns
        → All IsHash q
        → IsHash s
        → sorted_pair_hash sha256 (fold sha256 (sha256 m) q) s ≡ sorted_pair_hash sha256 a b
        → Stands leaves m (q ++ (s ∷ []))
    step_pair ns a b q s sound noded u v hq hs g =
        let (t, x) = pair_text sha256 (fold sha256 (sha256 m) q) s in
        let (w, y) = pair_text sha256 a b in
        elim (pair_first sha256 (fold sha256 (sha256 m) q) s a b t w
          (fold-IsHash sha256 sizes (sha256 m) q (sizes m)) hs
          (IsNode-IsHash sha256 sizes leaves a each (noded a u))
          (IsNode-IsHash sha256 sizes leaves b each (noded b v)) x y g) [
            | inr c ↦ inr (record {
              checked = t;
              built = w;
              is_checked = step_text q s [] refl x;
              is_built = node_text a b (noded a u) (noded b v) y;
              collides = c;
            })
            | inl (inl left) ↦ Stands-snoc q s (sound q hq (subst (λ z. Among z ns) (sym left) u))
            | inl (inr right) ↦ Stands-snoc q s (sound q hq (subst (λ z. Among z ns) (sym right) v))
          ]

    pair-Sound :
        (ns : List Node) (a b : Bytes) (p : Proof)
        → Sound ns
        → Noded ns
        → Among a ns
        → Among b ns
        → All IsHash p
        → fold sha256 (sha256 m) p ≡ sorted_pair_hash sha256 a b
        → Stands leaves m p
    unfolding fold
    pair-Sound ns a b p sound noded u v h e = elim (snoc_cases p h) [
      | inl empty ↦
          let own : sha256 m ≡ sorted_pair_hash sha256 a b =
            ap (fold sha256 (sha256 m)) (sym empty) ∙ e in
          subst (Stands leaves m) (sym empty) (inr (own_pair a b (noded a u) (noded b v) own))
      | inr (q, (s, f, hq, hs)) ↦
          let g : sorted_pair_hash sha256 (fold sha256 (sha256 m) q) s
              ≡ sorted_pair_hash sha256 a b =
            sym (fold_snoc sha256 (sha256 m) s q) ∙ ap (fold sha256 (sha256 m)) (sym f) ∙ e in
          subst (Stands leaves m) (sym f) (step_pair ns a b q s sound noded u v hq hs g)
    ]

    next_level-Sound :
        (ns : List Node) (P : List Proof) → Sound ns → Noded ns → Sound (next_level sha256 ns P).0
    next_level-Sound ns P sound noded p h k =
        elim (next_level-Among (fold sha256 (sha256 m) p) ns P k) [
          | inl old ↦ sound p h old
          | inr (a, (b, (u, v, e))) ↦ pair-Sound ns a b p sound noded u v h e
        ]

    build_levels-Sound :
        (fuel : ℕ) (ns : List Node) (P Q : List Proof) (root : Bytes)
        → build_levels sha256 fuel ns P ≡ some (root, Q)
        → Sound ns
        → Noded ns
        → (p : Proof) → All IsHash p
        → fold sha256 (sha256 m) p ≡ root
        → Stands leaves m p
    unfolding build_levels
    build_levels-Sound fuel [] P Q root e sound noded p h f = cc
    build_levels-Sound fuel (n ∷ []) P Q root e sound noded p h f =
        let g : n.hash ≡ root = cc in sound p h (inl (f ∙ sym g))
    build_levels-Sound zero (a ∷ b ∷ ns) P Q root e sound noded p h f = cc
    build_levels-Sound (suc fuel) (a ∷ b ∷ ns) P Q root e sound noded p h f =
        build_levels-Sound fuel (next_level sha256 (a ∷ b ∷ ns) P).0
          (next_level sha256 (a ∷ b ∷ ns) P).1 Q root e
          (next_level-Sound (a ∷ b ∷ ns) P sound noded) (next_level-Noded (a ∷ b ∷ ns) P noded) p h
          f

  finish_tree-root :
      (root : Bytes) (P : List Proof) (t : Tree) → finish_tree root P ≡ ok t → t.root ≡ root
  unfolding finish_tree
  finish_tree-root root P t e = elim (Option-cases (check_lengths P 0)) [
    | inl n ↦ ground arith
    | inr ((i, n), f) ↦ ground arith
  ]

  grow_tree-Built :
      (leaves : List Bytes) (t : Tree)
      → grow_tree sha256 leaves ≡ ok t
      → (P : List Proof) × (build_levels sha256
            (length leaves)
            (leaf_nodes leaves 0)
            (replicate (length leaves) [])
          ≡ some (t.root, P))
  unfolding grow_tree
  grow_tree-Built leaves t e =
      elim (Option-cases (
        build_levels sha256 (length leaves) (leaf_nodes leaves 0) (replicate (length leaves) []))) [
          | inl n ↦ cc (rw (n, grow_tree) at e)
          | inr ((root, P), f) ↦
              let g : t.root ≡ root = finish_tree-root root P t (rw (f, grow_tree) at e) in
              (P, f ∙ ap (λ (r : Bytes). some (r, P)) (sym g))
        ]

  build_tree-Built :
      (leaves : List Bytes) (t : Tree)
      → build_tree sha256 leaves ≡ ok t
      → grow_tree sha256 leaves ≡ ok t
  unfolding build_tree
  build_tree-Built [] t e = cc
  build_tree-Built (x ∷ ls) t e = elim (Option-cases (check_duplicates (x ∷ ls) 0 [])) [
    | inl n ↦ ground arith
    | inr ((i, j), f) ↦ ground arith
  ]

  leaf_nodes-Among :
      (h : Bytes) (ls : List Bytes) (i : ℕ)
      → Among h (leaf_nodes ls i)
      → (j : ℕ) × (get_elem? ls j ≡ some h)
  unfolding leaf_nodes
  leaf_nodes-Among h [] i k = absurd k
  leaf_nodes-Among h (l ∷ ls) i (inl e) = (0, ap some (sym e))
  leaf_nodes-Among h (l ∷ ls) i (inr k) = let (j, e) = leaf_nodes-Among h ls (suc i) k in (suc j, e)

  module _ (sizes : (x : Bytes) → IsHash (sha256 x)) (leaves : List Bytes)
      (each : All (IsLeaf sha256) leaves) (m : Bytes) (is_hash : IsHash m) where
    -- A proof that ends in a leaf is empty.
    leaf_nodes-Sound :
        (p : Proof)
        → All IsHash p
        → Among (fold sha256 (sha256 m) p) (leaf_nodes leaves 0)
        → Stands leaves m p
    unfolding fold
    leaf_nodes-Sound p h k = elim (snoc_cases p h) [
      | inl empty ↦ inl (
          leaf_nodes-Among (sha256 m) leaves 0
            (subst (λ q. Among (fold sha256 (sha256 m) q) (leaf_nodes leaves 0)) empty k))
      | inr (q, (s, f, hq, hs)) ↦
          let (j, at) = leaf_nodes-Among (fold sha256 (sha256 m) p) leaves 0 k in
          let (n, (is_hash', e)) = leaf_at sha256 leaves j (fold sha256 (sha256 m) p) each at in
          let (t, x) = pair_text sha256 (fold sha256 (sha256 m) q) s in
          inr (record {
            checked = t;
            built = n;
            is_checked = step_text q s [] f x;
            is_built = leaf_text j (at ∙ ap some e) is_hash';
            collides =
                pair_apart sha256 (fold sha256 (sha256 m) q) s n t
                  (fold-IsHash sha256 sizes (sha256 m) q (sizes m)) hs is_hash' x
                  (sym (fold_snoc sha256 (sha256 m) s q) ∙ ap (fold sha256 (sha256 m)) (sym f) ∙ e);
          })
    ]

    -- Let the leaves of a tree be hashes of 32-byte hashes, as `Leaf` makes them. Then a hash of a
    -- 32-byte hash that `VerifyProof` accepts, with any proof of 32-byte nodes, against the root that
    -- `BuildTree` returns, is one of the leaves, unless checking the proof and building the tree hash
    -- two different texts to one sha256.
    pub verify_proof-Stands :
        (t : Tree) (p : Proof)
        → build_tree sha256 leaves ≡ ok t
        → All IsHash p
        → verify_proof sha256 t.root (sha256 m) p ≡ true
        → Stands leaves m p
    unfolding verify_proof
    verify_proof-Stands t p e h v =
        let (P, built) = grow_tree-Built leaves t (build_tree-Built leaves t e) in
        build_levels-Sound sizes leaves each m is_hash (length leaves) (leaf_nodes leaves 0)
          (replicate (length leaves) []) P t.root built leaf_nodes-Sound
          (λ x k. let (j, at) = leaf_nodes-Among x leaves 0 k in leaf_node j at) p h
          ((bytes_eq_iff (fold sha256 (sha256 m) p) t.root).0 v)
