-- ===== src/Merkle/Tree/Duplicates.antt =====
-- The map of seen leaves: it reports the first leaf that an earlier index holds too.
use native.Mathlib.Nat.{add-zero}
use tallybook.Prelude.{
  sym, ◌∙◌, ℕ, zero, suc, ◌+◌, ◌<◌, ◌≡◌, refl, ap, arith, Option, none, some, List, [], ◌∷◌,
  get_elem?, Bool-cases, Option-cases, inl, inr,
}
use tallybook.Prelude.Bytes.{Bytes, bytes_eq, eq_of_bytes_eq, bytes_eq_refl}
use tallybook.Merkle.Tree.{find_seen, check_duplicates}

-- No two places hold the same leaf.
abbrev pub IsDistinct : List Bytes → Type 0
IsDistinct leaves =
    (i j : ℕ) (l : Bytes) → get_elem? leaves i ≡ some l → get_elem? leaves j ≡ some l → i ≡ j

module _ (leaf_at : ℕ → Option Bytes) where
  -- What the map holds when index `i` is reached.
  abbrev Seen : ℕ → List (Bytes × ℕ) → Type 0
  Seen i [] = Unit
  Seen i ((l, k) ∷ seen) = (k < i) × (leaf_at k ≡ some l) × Seen i seen

  Seen-suc : (i : ℕ) (seen : List (Bytes × ℕ)) → Seen i seen → Seen (suc i) seen
  Seen-suc i [] h = tt
  Seen-suc i ((l, k) ∷ seen) (u, e, h) = (omega arith, e, Seen-suc i seen h)

  find_seen_sound :
      (l : Bytes) (i p : ℕ) (seen : List (Bytes × ℕ))
      → Seen i seen
      → find_seen l seen ≡ some p
      → (p < i) × (leaf_at p ≡ some l)
  unfolding find_seen
  find_seen_sound l i p [] h e = cc
  find_seen_sound l i p ((k, j) ∷ seen) (u, a, h) e = elim (Bool-cases (bytes_eq k l)) [
    | inl same ↦ ground (arith, eq_of_bytes_eq k l same)
    | inr differ ↦ find_seen_sound l i p seen h (rw differ at e)
  ]

  pub check_duplicates_sound :
      (ls : List Bytes) (i : ℕ) (seen : List (Bytes × ℕ)) (p q : ℕ)
      → ((m : ℕ) → get_elem? ls m ≡ leaf_at (i + m))
      → Seen i seen
      → check_duplicates ls i seen ≡ some (p, q)
      → (p < q) × ((l : Bytes) × (leaf_at p ≡ some l) × (leaf_at q ≡ some l))
  unfolding check_duplicates
  check_duplicates_sound [] i seen p q at h e = cc
  check_duplicates_sound (l ∷ ls) i seen p q at h e = elim (Option-cases (find_seen l seen)) [
    | inl fresh ↦
        check_duplicates_sound ls (suc i) ((l, i) ∷ seen) p q
          (λ m. at (suc m) ∙ ap leaf_at (omega arith)) (omega arith, here, Seen-suc i seen h)
          (rw (fresh, check_duplicates) at e)
    | inr (k, found) ↦
        let (u, a) = find_seen_sound l i k seen h found in
        let hit : ◌≡◌ {A = Option (ℕ × ℕ)} (some (k, i)) (some (p, q)) =
          rw (found, check_duplicates) at e in
        let left : k ≡ p = cc in let right : i ≡ q = cc in rw (← left, ← right) (u, (l, a, here))
  ]
    where
      here : leaf_at i ≡ some l
      here = rw (add-zero i) at (sym (at 0))

-- If nothing is reported, no leaf of the list stands in the map, and the list is distinct.
none_absent :
    (ls : List Bytes) (i : ℕ) (seen : List (Bytes × ℕ)) (m : ℕ) (l : Bytes)
    → check_duplicates ls i seen ≡ none
    → get_elem? ls m ≡ some l
    → find_seen l seen ≡ none
unfolding check_duplicates
none_absent [] i seen m l e h = cc
none_absent (x ∷ ls) i seen zero l e h = ground arith
none_absent (x ∷ ls) i seen (suc m) l e h =
    ground (arith, none_absent ls (suc i) ((x, i) ∷ seen) m l)

none_differ :
    (ls : List Bytes) (i : ℕ) (seen : List (Bytes × ℕ))
    → check_duplicates ls i seen ≡ none
    → IsDistinct ls
unfolding check_duplicates
none_differ [] i seen e a b l h k = cc
none_differ (x ∷ ls) i seen e zero zero l h k = refl
none_differ (x ∷ ls) i seen e zero (suc b) l h k =
    ground (arith, none_absent ls (suc i) ((x, i) ∷ seen) b l, bytes_eq_refl l)
none_differ (x ∷ ls) i seen e (suc a) zero l h k =
    ground (arith, none_absent ls (suc i) ((x, i) ∷ seen) a l, bytes_eq_refl l)
none_differ (x ∷ ls) i seen e (suc a) (suc b) l h k =
    ap suc (none_differ ls (suc i) ((x, i) ∷ seen) (ground arith) a b l h k)

-- The check reports nothing exactly on a list of distinct leaves.
pub check_duplicates-none : (ls : List Bytes) → IsDistinct ls → check_duplicates ls 0 [] ≡ none
check_duplicates-none ls d = elim (Option-cases (check_duplicates ls 0 [])) [
  | inl e ↦ e
  | inr ((p, q), e) ↦ clash p q e
]
  where
    clash : (p q : ℕ) → check_duplicates ls 0 [] ≡ some (p, q) → check_duplicates ls 0 [] ≡ none
    clash p q e =
        let (u, (l, a, b)) =
          check_duplicates_sound (get_elem? ls) ls 0 [] p q (λ m. ap (get_elem? ls) (omega arith))
            tt e in
        absurd (omega (arith, d p q l a b))

pub none-IsDistinct : (ls : List Bytes) → check_duplicates ls 0 [] ≡ none → IsDistinct ls
none-IsDistinct ls e = none_differ ls 0 [] e
