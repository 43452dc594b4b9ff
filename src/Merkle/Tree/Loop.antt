-- ===== src/Merkle/Tree/Loop.antt =====
-- The loop over the levels, from the leaves to the root, and the check of the proof lengths.
use native.Mathlib.Nat.{pow-suc}
use tallybook.Prelude.{
  ℕ, zero, suc, ◌+◌, ◌^◌, ◌≤◌, ◌<◌, ◌≡◌, refl, sym, ap, ◌∙◌, arith, none, some, List, [], ◌∷◌,
  length, length-replicate, get_or, get_or-replicate, replicate,
}
use tallybook.Prelude.Bytes.{Bytes}
use tallybook.Merkle.Tree.{
  Proof, Node, max_proof_length, fold, next_level, build_levels, leaf_nodes, check_lengths,
}
use tallybook.Merkle.Tree.Spans.{Reaches, Spans}
use tallybook.Merkle.Tree.Levels.{next_level-Spans, length-next_level}

abbrev pub HasShortProofs : List Proof → Type 0
HasShortProofs P = (j : ℕ) → length (get_or P j []) ≤ max_proof_length

pub check_lengths_sound : (P : List Proof) (i : ℕ) → check_lengths P i ≡ none → HasShortProofs P
unfolding check_lengths
check_lengths_sound [] i e j = omega arith
check_lengths_sound (p ∷ P) i e zero = ground arith
check_lengths_sound (p ∷ P) i e (suc j) =
    ground (arith, check_lengths_sound P (suc i) (ground arith) j)

pub check_lengths_complete : (P : List Proof) (i : ℕ) → HasShortProofs P → check_lengths P i ≡ none
unfolding check_lengths
check_lengths_complete [] i h = refl
check_lengths_complete (p ∷ P) i h =
    ground (arith, h 0, check_lengths_complete P (suc i) (λ j. h (suc j)))

pub check_lengths_over :
    (P : List Proof) (i k n : ℕ) → check_lengths P i ≡ some (k, n) → max_proof_length < n
unfolding check_lengths
check_lengths_over [] i k n e = cc
check_lengths_over (p ∷ P) i k n e = ground (arith, check_lengths_over P (suc i) k n)

module _ (sha256 : Bytes → Bytes) where
  -- What the loop over the levels leaves, when no more than 2 ^ r nodes were there at first.
  record Built (leaf : ℕ → Bytes) (hi r : ℕ) (P Q : List Proof) (root : Bytes) : Type 0 where
    same_length : length Q ≡ length P
    reaches : (j : ℕ) → j < hi → Reaches sha256 leaf j Q root
    grows : (j : ℕ) → length (get_or Q j []) ≤ length (get_or P j []) + r

  single :
      (leaf : ℕ → Bytes) (hi r : ℕ) (n : Node) (P : List Proof)
      → Spans sha256 leaf 0 hi (n ∷ []) P
      → Built leaf hi r P P n.hash
  single leaf hi r n P (k, g, h, e) = record {
    same_length = refl;
    reaches = λ j u. h j (omega arith) (omega arith);
    grows = λ j. omega arith;
  }

  -- The loop ends, with a round for each node but one, and all leaves reach the one root.
  build_levels-Built :
      (leaf : ℕ → Bytes) (fuel : ℕ) (ns : List Node) (P : List Proof) (hi r : ℕ)
      → 0 < length ns
      → length ns ≤ suc fuel
      → length ns ≤ 2 ^ r
      → Spans sha256 leaf 0 hi ns P
      → hi ≤ length P
      → (root : Bytes) × ((Q : List Proof) × (build_levels sha256 fuel ns P ≡ some (root, Q))
          × Built leaf hi r P Q root)
  unfolding build_levels
  build_levels-Built leaf fuel [] P hi r some_node enough small h room = absurd (omega arith)
  build_levels-Built leaf fuel (n ∷ []) P hi r some_node enough small h room =
      (n.hash, (P, refl, single leaf hi r n P h))
  build_levels-Built leaf zero (a ∷ b ∷ ns) P hi r some_node enough small h room =
      absurd (omega arith)
  build_levels-Built leaf (suc fuel) (a ∷ b ∷ ns) P hi zero some_node enough small h room =
      absurd (omega arith)
  build_levels-Built leaf (suc fuel) (a ∷ b ∷ ns) P hi (suc r) some_node enough small h room =
      let sizes = length-next_level sha256 (a ∷ b ∷ ns) P in
      let (spans, pass) = next_level-Spans sha256 leaf (a ∷ b ∷ ns) P 0 hi h room in
      let (root, (Q, e, built)) =
        build_levels-Built leaf fuel (next_level sha256 (a ∷ b ∷ ns) P).0
          (next_level sha256 (a ∷ b ∷ ns) P).1 hi r (omega (arith, sizes)) (omega (arith, sizes))
          (omega (arith, sizes, pow-suc 2 r)) spans (omega (arith, pass.same_length)) in
      (
        root,
        (
          Q,
          e,
          record {
            same_length = built.same_length ∙ pass.same_length;
            reaches = built.reaches;
            grows = λ j. omega (arith, built.grows j, pass.grows j);
          },
        ),
      )

  leaf_nodes-Spans :
      (leaf : ℕ → Bytes) (ls : List Bytes) (i : ℕ) (P : List Proof)
      → ((m : ℕ) → m < length ls → get_or ls m [] ≡ leaf (i + m))
      → ((j : ℕ) → get_or P j [] ≡ [])
      → Spans sha256 leaf i (i + length ls) (leaf_nodes ls i) P
  unfolding leaf_nodes fold
  leaf_nodes-Spans leaf [] i P at blank = omega arith
  leaf_nodes-Spans leaf (l ∷ ls) i P at blank = (
    1,
    refl,
    λ j lo hi.
        let e : j ≡ i + 0 = omega arith in rw (blank j) (ap leaf e ∙ sym (at 0 (omega arith))),
    let next : i + 1 ≡ suc i = omega arith in
        let end : i + suc (length ls) ≡ suc i + length ls = omega arith in
        rw (next, end)
          (leaf_nodes-Spans leaf ls (suc i) P
            (λ m u. at (suc m) (omega arith) ∙ ap leaf (omega arith)) blank),
  )

  length-leaf_nodes : (ls : List Bytes) (i : ℕ) → length (leaf_nodes ls i) ≡ length ls
  unfolding leaf_nodes
  length-leaf_nodes [] i = refl
  length-leaf_nodes (l ∷ ls) i = ap suc (length-leaf_nodes ls (suc i))

  -- What the loop gives for the whole list of leaves.
  abbrev pub Grown : List Bytes → ℕ → Type 0
  Grown leaves r =
      (root : Bytes) × ((Q : List Proof) × (build_levels sha256 (length leaves)
            (leaf_nodes leaves 0) (replicate (length leaves) [])
          ≡ some (root, Q))
        × (length Q ≡ length leaves)
        × ((j : ℕ) → j < length leaves → fold sha256 (get_or leaves j []) (get_or Q j []) ≡ root)
        × ((j : ℕ) → length (get_or Q j []) ≤ r))

  pub grown :
      (leaves : List Bytes) (r : ℕ) → 0 < length leaves → length leaves ≤ 2 ^ r → Grown leaves r
  grown leaves r some_leaf small =
      let n : ℕ = length leaves in
      let blank : List Proof = replicate n [] in
      let size = length-leaf_nodes leaves 0 in
      let len : length blank ≡ n = length-replicate n [] in
      let whole : 0 + n ≡ n = omega arith in
      let (root, (Q, e, built)) =
        build_levels-Built (λ j. get_or leaves j []) n (leaf_nodes leaves 0) blank n r
          (omega (arith, size)) (omega (arith, size)) (omega (arith, size))
          (rw whole at (
            leaf_nodes-Spans (λ j. get_or leaves j []) leaves 0 blank
              (λ m u. ap (λ (t : ℕ). get_or leaves t []) (omega arith))
              (λ j. get_or-replicate n j [])))
          (omega (arith, len)) in
      (
        root,
        (
          Q,
          e,
          built.same_length ∙ len,
          built.reaches,
          λ j. omega (arith, built.grows j, ap (λ (p : Proof). length p) (get_or-replicate n j [])),
        ),
      )
