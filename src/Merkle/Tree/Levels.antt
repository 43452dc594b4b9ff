-- ===== src/Merkle/Tree/Levels.antt =====
-- One pass over a level: the pairs of neighbours, the promotion of an odd one out.
use native.Mathlib.Decide.{dec_lt}
use native.Mathlib.Nat.{add_assoc}
use tallybook.Prelude.{
  ℕ, ◌+◌, ◌*◌, ◌≤◌, ◌<◌, ◌≡◌, refl, ap, ◌∙◌, arith, List, [], ◌∷◌, ◌++◌, length, length-append,
  get_or,
}
use tallybook.Prelude.Bytes.{Bytes}
use tallybook.Merkle.Tree.{Proof, Node, append_group, sorted_pair_hash, next_level}
use tallybook.Merkle.Tree.Append.{
  iota, iota-append, length-append_group, append_group_below, append_group_above,
  append_group_within,
}
use tallybook.Merkle.Tree.Spans.{
  sorted_pair_hash_comm, fold_snoc, Reaches, Spans, Spans-le, Spans-agree, Pass,
}

-- The proofs after one pair: each side's leaves get the other side's hash.
abbrev pub pair_proofs : Node → Node → List Proof → List Proof
pair_proofs a b P = append_group b.group a.hash (append_group a.group b.hash P)

module _ (a b : Node) (P : List Proof) (lo k m : ℕ) (left : a.group ≡ iota lo k)
    (right : b.group ≡ iota (lo + k) m) (room : lo + k + m ≤ length P) where
  length-pair : length (pair_proofs a b P) ≡ length P
  length-pair = length-append_group b.group a.hash _ ∙ length-append_group a.group b.hash P

  pair_left :
      (j : ℕ)
      → lo ≤ j
      → j < lo + k
      → get_or (pair_proofs a b P) j [] ≡ get_or P j [] ++ (b.hash ∷ [])
  pair_left j l u =
      rw (left, right)
        (append_group_below (lo + k) m j a.hash _ u
          ∙ append_group_within lo k j b.hash P l u (omega arith))

  pair_right :
      (j : ℕ)
      → lo + k ≤ j
      → j < lo + k + m
      → get_or (pair_proofs a b P) j [] ≡ get_or P j [] ++ (a.hash ∷ [])
  pair_right j l u =
      rw (left, right)
        (append_group_within (lo + k) m j a.hash (append_group (iota lo k) b.hash P) l u
            (omega (arith, length-append_group (iota lo k) b.hash P))
          ∙ ap (λ (p : Proof). p ++ (a.hash ∷ [])) (append_group_above lo k j b.hash P l))

  pair_below : (j : ℕ) → j < lo → get_or (pair_proofs a b P) j [] ≡ get_or P j []
  pair_below j h =
      rw (left, right)
        (append_group_below (lo + k) m j a.hash _ (omega arith)
          ∙ append_group_below lo k j b.hash P h)

  pair_above : (j : ℕ) → lo + k + m ≤ j → get_or (pair_proofs a b P) j [] ≡ get_or P j []
  pair_above j h =
      rw (left, right)
        (append_group_above (lo + k) m j a.hash _ h
          ∙ append_group_above lo k j b.hash P (omega arith))

  -- No proof grows by more than one.
  pair_grows : (j : ℕ) → length (get_or (pair_proofs a b P) j []) ≤ length (get_or P j []) + 1
  pair_grows j = elim (dec_lt j lo) [
    | yes p ↦ rw (pair_below j p) (omega arith)
    | no p ↦ elim (dec_lt j (lo + k)) [
      | yes q ↦ rw (pair_left j (omega arith) q, length-append) (omega arith)
      | no q ↦ elim (dec_lt j (lo + k + m)) [
        | yes r ↦ rw (pair_right j (omega arith) r, length-append) (omega arith)
        | no r ↦ rw (pair_above j (omega arith)) (omega arith)
      ]
    ]
  ]

module _ (sha256 : Bytes → Bytes) (leaf : ℕ → Bytes) where
  abbrev join : Node → Node → Node
  join a b = record { hash = sorted_pair_hash sha256 a.hash b.hash; group = a.group ++ b.group }

  -- A pair whose leaves reach its two hashes reaches the hash of the pair.
  pair-Reaches :
      (a b : Node) (P : List Proof) (lo k m : ℕ)
      → a.group ≡ iota lo k
      → b.group ≡ iota (lo + k) m
      → lo + k + m ≤ length P
      → ((j : ℕ) → lo ≤ j → j < lo + k → Reaches sha256 leaf j P a.hash)
      → ((j : ℕ) → lo + k ≤ j → j < lo + k + m → Reaches sha256 leaf j P b.hash)
      → (j : ℕ) → lo ≤ j
      → j < lo + k + m
      → Reaches sha256 leaf j (pair_proofs a b P) (join a b).hash
  pair-Reaches a b P lo k m ga gb room ra rb j l u = elim (dec_lt j (lo + k)) [
    | yes p ↦ rw (pair_left a b P lo k m ga gb room j l p, fold_snoc sha256, ra j l p)
    | no p ↦
        rw
          (
            pair_right a b P lo k m ga gb room j (omega arith) u,
            fold_snoc sha256,
            rb j (omega arith) u,
          )
          (sorted_pair_hash_comm sha256 b.hash a.hash)
  ]

  -- A pair in front of a pass over the rest is a pass.
  pair_step :
      (a b : Node) (level : List Node) (P Q : List Proof) (lo k m hi : ℕ)
      → a.group ≡ iota lo k
      → b.group ≡ iota (lo + k) m
      → lo + k + m ≤ length P
      → ((j : ℕ) → lo ≤ j → j < lo + k → Reaches sha256 leaf j P a.hash)
      → ((j : ℕ) → lo + k ≤ j → j < lo + k + m → Reaches sha256 leaf j P b.hash)
      → Spans sha256 leaf (lo + k + m) hi level Q
      → Pass sha256 leaf (lo + k + m) (pair_proofs a b P) Q
      → Spans sha256 leaf lo hi (join a b ∷ level) Q × Pass sha256 leaf lo P Q
  pair_step a b level P Q lo k m hi ga gb room ra rb h pass = (
    (
      k + m,
      rw (ga, gb) (iota-append lo k m),
      λ j l u.
          rw (pass.below j (omega arith))
            (pair-Reaches a b P lo k m ga gb room ra rb j l (omega arith)),
      rw (← add_assoc lo k m) h,
    ),
    record {
      same_length = pass.same_length ∙ length-pair a b P lo k m ga gb room;
      below = λ j u. pass.below j (omega arith) ∙ pair_below a b P lo k m ga gb room j u;
      grows = λ j. elim (dec_lt j (lo + k + m)) [
        | yes u ↦ rw (pass.below j u) (pair_grows a b P lo k m ga gb room j)
        | no u ↦ rw (← pair_above a b P lo k m ga gb room j (omega arith)) (pass.grows j)
      ];
    },
  )

  pub next_level-Spans :
      (ns : List Node) (P : List Proof) (lo hi : ℕ)
      → Spans sha256 leaf lo hi ns P
      → hi ≤ length P
      → let (level, Q) = next_level sha256 ns P in
        Spans sha256 leaf lo hi level Q × Pass sha256 leaf lo P Q
  unfolding next_level
  next_level-Spans [] P lo hi h room =
      (h, record { same_length = refl; below = λ j l. refl; grows = λ j. omega arith })
  next_level-Spans (a ∷ []) P lo hi h room =
      (h, record { same_length = refl; below = λ j l. refl; grows = λ j. omega arith })
  next_level-Spans (a ∷ b ∷ rest) P lo hi (k, ga, ra, (m, gb, rb, h)) room =
      let fits : lo + k + m ≤ length P =
        omega (arith, Spans-le sha256 leaf (lo + k + m) hi rest P h) in
      let (spans, pass) =
        next_level-Spans rest (pair_proofs a b P) (lo + k + m) hi
          (Spans-agree sha256 leaf (lo + k + m) hi rest P (pair_proofs a b P)
            (pair_above a b P lo k m ga gb fits) h)
          (omega (arith, length-pair a b P lo k m ga gb fits)) in
      pair_step a b _ P _ lo k m hi ga gb fits ra rb spans pass

module _ (sha256 : Bytes → Bytes) where
  -- Half of the nodes are left, rounded up.
  pub length-next_level :
      (ns : List Node) (P : List Proof)
      → length ns ≤ 2 * length (next_level sha256 ns P).0
        × (2 * length (next_level sha256 ns P).0 ≤ length ns + 1)
  unfolding next_level
  length-next_level [] P = omega arith
  length-next_level (a ∷ []) P = omega arith
  length-next_level (a ∷ b ∷ rest) P = omega (arith, length-next_level rest (pair_proofs a b P))
