-- ===== src/Merkle/Tree/Pairs.antt =====
-- internal/merkle/tree.go: what a hash over two 32-byte hashes tells of what was hashed.
use tallybook.Prelude.{
  ◌≡◌, ◌≢◌, ◌⊎◌, refl, ap, subst, sym, ◌∙◌, arith, [], ◌∷◌, ◌++◌, length, length-append, Bool-cases,
  inl, inr,
}
use tallybook.Prelude.Bytes.{Bytes, bytes_eq, bytes_eq_iff, bytes_leb}
use tallybook.Merkle.Tree.{Proof, sorted_pair_hash, fold}

-- A [32]byte.
abbrev pub IsHash : Bytes → Type 0
IsHash h = length h ≡ 32

same_text : (x y : Bytes) → (x ≡ y) ⊎ (x ≢ y)
same_text x y = elim (Bool-cases (bytes_eq x y)) [
  | inl same ↦ inl ((bytes_eq_iff x y).0 same)
  | inr differ ↦ inr (λ p. cc ((bytes_eq_iff x y).1 p))
]

append-injective : (a b c d : Bytes) → length a ≡ length c → a ++ b ≡ c ++ d → (a ≡ c) × (b ≡ d)
append-injective [] b [] d l e = (refl, e)
append-injective [] b (z ∷ c) d l e = absurd (omega arith)
append-injective (x ∷ a) b [] d l e = absurd (omega arith)
append-injective (x ∷ a) b (z ∷ c) d l e =
    let t : a ++ b ≡ c ++ d = cc in
    let (p, q) = append-injective a b c d (omega arith) t in let u : x ≡ z = cc in (cc, q)

-- The two texts of which one is hashed.
abbrev pub Concat : Bytes → Bytes → Bytes → Type 0
Concat a b t = (t ≡ a ++ b) ⊎ (t ≡ b ++ a)

Concat-length : (a b t : Bytes) → IsHash a → IsHash b → Concat a b t → length t ≡ 64
Concat-length a b t h k (inl e) = rw (e, length-append a b, h, k) refl
Concat-length a b t h k (inr e) = rw (e, length-append b a, h, k) refl

Concat-first :
    (a b c d t : Bytes)
    → IsHash a
    → IsHash b
    → IsHash c
    → IsHash d
    → Concat a b t
    → Concat c d t
    → (a ≡ c) ⊎ (a ≡ d)
Concat-first a b c d t ha hb hc hd (inl e) (inl f) =
    inl (append-injective a b c d (ha ∙ sym hc) (sym e ∙ f)).0
Concat-first a b c d t ha hb hc hd (inl e) (inr f) =
    inr (append-injective a b d c (ha ∙ sym hd) (sym e ∙ f)).0
Concat-first a b c d t ha hb hc hd (inr e) (inl f) =
    inr (append-injective b a c d (hb ∙ sym hc) (sym e ∙ f)).1
Concat-first a b c d t ha hb hc hd (inr e) (inr f) =
    inl (append-injective b a d c (hb ∙ sym hd) (sym e ∙ f)).1

module _ (sha256 : Bytes → Bytes) where
  -- The text that the hash over two hashes is the hash of.
  abbrev pub PairText : Bytes → Bytes → Bytes → Type 0
  PairText a b t = Concat a b t × (sorted_pair_hash sha256 a b ≡ sha256 t)

  -- Two different texts with one hash.
  abbrev pub Collides : Bytes → Bytes → Type 0
  Collides x y = (x ≢ y) × (sha256 x ≡ sha256 y)

  pub pair_text : (a b : Bytes) → (t : Bytes) × PairText a b t
  unfolding sorted_pair_hash
  pair_text a b = elim (Bool-cases (bytes_leb a b)) [
    | inl e ↦ (a ++ b, (inl refl, ground arith))
    | inr e ↦ (b ++ a, (inr refl, ground arith))
  ]

  pub pair_first :
      (a b c d t u : Bytes)
      → IsHash a
      → IsHash b
      → IsHash c
      → IsHash d
      → PairText a b t
      → PairText c d u
      → sorted_pair_hash sha256 a b ≡ sorted_pair_hash sha256 c d
      → ((a ≡ c) ⊎ (a ≡ d)) ⊎ Collides t u
  pair_first a b c d t u ha hb hc hd x y e = elim (same_text t u) [
    | inr differ ↦ inr (differ, sym x.1 ∙ e ∙ y.1)
    | inl same ↦ inl (Concat-first a b c d u ha hb hc hd (subst (Concat a b) same x.0) y.0)
  ]

  -- A pair's hash is no hash of 32 bytes.
  pub pair_apart :
      (a b m t : Bytes)
      → IsHash a
      → IsHash b
      → IsHash m
      → PairText a b t
      → sorted_pair_hash sha256 a b ≡ sha256 m
      → Collides t m
  pair_apart a b m t ha hb hm x e =
      let n : length t ≡ 64 = Concat-length a b t ha hb x.0 in
      ((λ p. let q : length t ≡ length m = ap length p in omega arith), sym x.1 ∙ e)

  module _ (sizes : (x : Bytes) → IsHash (sha256 x)) where
    pub pair-IsHash : (a b : Bytes) → IsHash (sorted_pair_hash sha256 a b)
    pair-IsHash a b = let (t, (s, f)) = pair_text a b in ap length f ∙ sizes t

    pub fold-IsHash : (l : Bytes) (p : Proof) → IsHash l → IsHash (fold sha256 l p)
    unfolding fold
    fold-IsHash l [] h = h
    fold-IsHash l (s ∷ p) h = fold-IsHash (sorted_pair_hash sha256 l s) p (pair-IsHash l s)
