-- ===== src/Merkle/Tree/Append.antt =====
-- `append_at` and `append_group`: what the proof at each index becomes.
use tallybook.Prelude.{
  ℕ, zero, suc, ◌+◌, ◌≤◌, ◌<◌, ◌≡◌, refl, ◌≢◌, ◌∙◌, arith, List, [], ◌∷◌, ◌++◌, length, get_or, ap,
}
use native.Mathlib.Decide.{dec_lt}
use native.Mathlib.Nat.{add-zero, zero-add, add-suc, suc-add}
use tallybook.Prelude.Bytes.{Bytes}
use tallybook.Merkle.Tree.{Proof, append_at, append_group}

-- The indices lo, …, lo + k - 1.
abbrev pub iota : ℕ → ℕ → List ℕ
iota lo zero = []
iota lo (suc k) = lo ∷ iota (suc lo) k

pub iota-append : (lo k m : ℕ) → iota lo k ++ iota (lo + k) m ≡ iota lo (k + m)
iota-append lo zero m = rw (add-zero lo, zero-add m)
iota-append lo (suc k) m =
    rw (add-suc, suc-add) (ap (λ (t : List ℕ). lo ∷ t) (rw suc-add at (iota-append (suc lo) k m)))

length-append_at : (i : ℕ) (s : Bytes) (P : List Proof) → length (append_at i s P) ≡ length P
unfolding append_at
length-append_at i s [] = refl
length-append_at zero s (p ∷ P) = refl
length-append_at (suc i) s (p ∷ P) = ap suc (length-append_at i s P)

pub length-append_group :
    (g : List ℕ) (s : Bytes) (P : List Proof) → length (append_group g s P) ≡ length P
unfolding append_group
length-append_group [] s P = refl
length-append_group (i ∷ g) s P = length-append_group g s (append_at i s P) ∙ length-append_at i s P

append_at_self :
    (i : ℕ) (s : Bytes) (P : List Proof)
    → i < length P
    → get_or (append_at i s P) i [] ≡ get_or P i [] ++ (s ∷ [])
unfolding append_at
append_at_self i s [] h = elim h [ ]
append_at_self zero s (p ∷ P) h = refl
append_at_self (suc i) s (p ∷ P) h = append_at_self i s P (omega arith)

append_at_ne :
    (i j : ℕ) (s : Bytes) (P : List Proof) → i ≢ j → get_or (append_at i s P) j [] ≡ get_or P j []
unfolding append_at
append_at_ne i j s [] h = refl
append_at_ne zero zero s (p ∷ P) h = absurd (h refl)
append_at_ne zero (suc j) s (p ∷ P) h = refl
append_at_ne (suc i) zero s (p ∷ P) h = refl
append_at_ne (suc i) (suc j) s (p ∷ P) h = append_at_ne i j s P (λ e. h (ap suc e))

-- A group of neighbours leaves every other proof alone.
pub append_group_below :
    (lo k j : ℕ) (s : Bytes) (P : List Proof)
    → j < lo
    → get_or (append_group (iota lo k) s P) j [] ≡ get_or P j []
unfolding append_group
append_group_below lo zero j s P h = refl
append_group_below lo (suc k) j s P h =
    append_group_below (suc lo) k j s (append_at lo s P) (omega arith)
    ∙ append_at_ne lo j s P (omega arith)

pub append_group_above :
    (lo k j : ℕ) (s : Bytes) (P : List Proof)
    → lo + k ≤ j
    → get_or (append_group (iota lo k) s P) j [] ≡ get_or P j []
unfolding append_group
append_group_above lo zero j s P h = refl
append_group_above lo (suc k) j s P h =
    append_group_above (suc lo) k j s (append_at lo s P) (omega arith)
    ∙ append_at_ne lo j s P (omega arith)

-- Each proof of the group gets the sibling exactly once.
pub append_group_within :
    (lo k j : ℕ) (s : Bytes) (P : List Proof)
    → lo ≤ j
    → j < lo + k
    → j < length P
    → get_or (append_group (iota lo k) s P) j [] ≡ get_or P j [] ++ (s ∷ [])
unfolding append_group
append_group_within lo zero j s P h k l = absurd (omega arith)
append_group_within lo (suc k) j s P h u l = elim (dec_lt lo j) [
  | yes p ↦
      append_group_within (suc lo) k j s (append_at lo s P) p (omega arith)
        (omega (arith, length-append_at lo s P))
      ∙ ap (λ (q : Proof). q ++ (s ∷ [])) (append_at_ne lo j s P (omega arith))
  | no p ↦
      let e : lo ≡ j = omega arith in
      append_group_below (suc lo) k j s (append_at lo s P) (omega arith)
      ∙ rw e (append_at_self j s P l)
]
