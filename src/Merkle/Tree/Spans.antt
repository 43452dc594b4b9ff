-- ===== src/Merkle/Tree/Spans.antt =====
-- One pass over a level, and the loop over the levels. `Spans` says what holds at each pass: the
-- groups are runs of neighbouring indices that cover a range, and every leaf of a group folds
-- through its proof so far to the node's hash.
use tallybook.Prelude.{
  ℕ, ◌+◌, ◌≤◌, ◌<◌, ◌≡◌, refl, ◌∙◌, arith, List, [], ◌∷◌, ◌++◌, length, get_or, Bool-cases, inl,
  inr,
}
use tallybook.Prelude.Bytes.{Bytes, bytes_leb, bytes_leb_antisymm, bytes_leb_total}
use tallybook.Merkle.Tree.{Proof, Node, sorted_pair_hash, fold}
use tallybook.Merkle.Tree.Append.{iota}

module _ (sha256 : Bytes → Bytes) where
  -- The order of a pair does not matter.
  pub sorted_pair_hash_comm :
      (a b : Bytes) → sorted_pair_hash sha256 a b ≡ sorted_pair_hash sha256 b a
  unfolding sorted_pair_hash
  sorted_pair_hash_comm a b = elim (Bool-cases (bytes_leb a b)) [
    | inl p ↦ elim (Bool-cases (bytes_leb b a)) [
      | inl q ↦ rw (bytes_leb_antisymm a b p q)
      | inr q ↦ rw (p, q)
    ]
    | inr p ↦ rw (p, bytes_leb_total a b p)
  ]

  pub fold-append :
      (x : Bytes) (p q : Proof) → fold sha256 x (p ++ q) ≡ fold sha256 (fold sha256 x p) q
  unfolding fold
  fold-append x [] q = refl
  fold-append x (s ∷ p) q = fold-append (sorted_pair_hash sha256 x s) p q

  pub fold_snoc :
      (x s : Bytes) (p : Proof)
      → fold sha256 x (p ++ (s ∷ [])) ≡ sorted_pair_hash sha256 (fold sha256 x p) s
  fold_snoc x s p = fold-append x p (s ∷ []) ∙ unfold fold in refl

  module _ (leaf : ℕ → Bytes) where
    abbrev pub Reaches : ℕ → List Proof → Bytes → Type 0
    Reaches j P h = fold sha256 (leaf j) (get_or P j []) ≡ h

    abbrev pub Spans : ℕ → ℕ → List Node → List Proof → Type 0
    Spans lo hi [] P = lo ≡ hi
    Spans lo hi (n ∷ ns) P =
        (k : ℕ) × (n.group ≡ iota lo k)
        × ((j : ℕ) → lo ≤ j → j < lo + k → Reaches j P n.hash)
        × Spans (lo + k) hi ns P

    pub Spans-le : (lo hi : ℕ) (ns : List Node) (P : List Proof) → Spans lo hi ns P → lo ≤ hi
    Spans-le lo hi [] P h = omega arith
    Spans-le lo hi (n ∷ ns) P (k, g, r, h) = omega (arith, Spans-le (lo + k) hi ns P h)

    -- It depends on the proofs from `lo` on only.
    pub Spans-agree :
        (lo hi : ℕ) (ns : List Node) (P Q : List Proof)
        → ((j : ℕ) → lo ≤ j → get_or Q j [] ≡ get_or P j [])
        → Spans lo hi ns P
        → Spans lo hi ns Q
    Spans-agree lo hi [] P Q e h = h
    Spans-agree lo hi (n ∷ ns) P Q e (k, g, r, h) = (
      k,
      g,
      λ j l u. rw (e j l) (r j l u),
      Spans-agree (lo + k) hi ns P Q (λ j l. e j (omega arith)) h,
    )

    -- What a pass from `P` to `Q` over the range from `lo` on may do to the proofs.
    pub record Pass (lo : ℕ) (P Q : List Proof) : Type 0 where
      pub same_length : length Q ≡ length P
      pub below : (j : ℕ) → j < lo → get_or Q j [] ≡ get_or P j []
      pub grows : (j : ℕ) → length (get_or Q j []) ≤ length (get_or P j []) + 1
