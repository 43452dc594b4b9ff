-- ===== src/Meter/Pricing/Sort.antt =====
-- The sort by effective ledger: the same entries, in order.
use native.Mathlib.Nat.{le_trans}
use tallybook.Prelude.{
  ℕ, ◌≤◌, ◌≢◌, arith, List, [], ◌∷◌, All, All-imp, sym, Bool-cases, inl, inr, leb→le, leb,
}
use tallybook.Meter.Pricing.{CatalogVersion, insert_version, sort_versions}

-- No later version has an earlier ledger.
abbrev pub IsSorted : List CatalogVersion → Type 0
IsSorted [] = Unit
IsSorted (v ∷ vs) = All (λ w. v.effective_ledger ≤ w.effective_ledger) vs × IsSorted vs

module _ (P : CatalogVersion → Type 0) where
  All-insert_version :
      (v : CatalogVersion) (vs : List CatalogVersion) → P v → All P vs → All P (insert_version v vs)
  unfolding insert_version
  All-insert_version v [] p h = (p, tt)
  All-insert_version v (w ∷ vs) p h = ground (arith, All-insert_version v vs p)

  All-of_insert_version :
      (v : CatalogVersion) (vs : List CatalogVersion) → All P (insert_version v vs) → P v × All P vs
  unfolding insert_version
  All-of_insert_version v [] h = h
  All-of_insert_version v (w ∷ vs) h =
      elim (Bool-cases (leb v.effective_ledger w.effective_ledger)) [
        | inl p ↦ rw (p, insert_version) at h
        | inr p ↦
            let (a, b) : P w × All P (insert_version v vs) = rw (p, insert_version) at h in
            let (c, d) = All-of_insert_version v vs b in (c, (a, d))
      ]

  -- What holds of all entries holds of all sorted ones, and the other way round.
  pub All-sort_versions : (vs : List CatalogVersion) → All P vs → All P (sort_versions vs)
  unfolding sort_versions
  All-sort_versions [] h = tt
  All-sort_versions (v ∷ vs) h =
      All-insert_version v (sort_versions vs) h.0 (All-sort_versions vs h.1)

  pub All-of_sort_versions : (vs : List CatalogVersion) → All P (sort_versions vs) → All P vs
  unfolding sort_versions
  All-of_sort_versions [] h = tt
  All-of_sort_versions (v ∷ vs) h =
      let (a, b) = All-of_insert_version v (sort_versions vs) h in (a, All-of_sort_versions vs b)

insert_version-IsSorted :
    (v : CatalogVersion) (vs : List CatalogVersion) → IsSorted vs → IsSorted (insert_version v vs)
unfolding insert_version
insert_version-IsSorted v [] h = (tt, tt)
insert_version-IsSorted v (w ∷ vs) (a, h) =
    elim (Bool-cases (leb v.effective_ledger w.effective_ledger)) [
      | inl p ↦ rw p ((leb→le _ _ p, All-imp _ _ vs (λ x q. le_trans (leb→le _ _ p) q) a), (a, h))
      | inr p ↦ rw p (
        All-insert_version (λ x. w.effective_ledger ≤ x.effective_ledger) v vs (ground arith) a,
        insert_version-IsSorted v vs h,
      )
    ]

pub sort_versions-IsSorted : (vs : List CatalogVersion) → IsSorted (sort_versions vs)
unfolding sort_versions
sort_versions-IsSorted [] = tt
sort_versions-IsSorted (v ∷ vs) =
    insert_version-IsSorted v (sort_versions vs) (sort_versions-IsSorted vs)

-- No two entries of a list share a number.
module _ (f : CatalogVersion → ℕ) where
  abbrev pub HasDistinct : List CatalogVersion → Type 0
  HasDistinct [] = Unit
  HasDistinct (v ∷ vs) = All (λ w. f w ≢ f v) vs × HasDistinct vs

  insert_version-HasDistinct :
      (v : CatalogVersion) (vs : List CatalogVersion)
      → All (λ w. f w ≢ f v) vs
      → HasDistinct vs
      → HasDistinct (insert_version v vs)
  unfolding insert_version
  insert_version-HasDistinct v [] h k = (tt, tt)
  insert_version-HasDistinct v (w ∷ vs) (a, h) (b, k) =
      elim (Bool-cases (leb v.effective_ledger w.effective_ledger)) [
        | inl p ↦ rw p ((a, h), (b, k))
        | inr p ↦ rw p (
          All-insert_version (λ x. f x ≢ f w) v vs (λ e. a (sym e)) b,
          insert_version-HasDistinct v vs h k,
        )
      ]

  HasDistinct-of_insert_version :
      (v : CatalogVersion) (vs : List CatalogVersion)
      → HasDistinct (insert_version v vs)
      → All (λ w. f w ≢ f v) vs × HasDistinct vs
  unfolding insert_version
  HasDistinct-of_insert_version v [] h = (tt, tt)
  HasDistinct-of_insert_version v (w ∷ vs) h =
      elim (Bool-cases (leb v.effective_ledger w.effective_ledger)) [
        | inl p ↦ rw (p, insert_version) at h
        | inr p ↦
            let (a, b) : All (λ x. f x ≢ f w) (insert_version v vs)
                × HasDistinct (insert_version v vs) =
              rw (p, insert_version) at h in
            let (c, d) = HasDistinct-of_insert_version v vs b in
            let (e, g) = All-of_insert_version (λ x. f x ≢ f w) v vs a in
            (((λ q. e (sym q)), c), (g, d))
      ]

  pub sort_versions-HasDistinct :
      (vs : List CatalogVersion) → HasDistinct vs → HasDistinct (sort_versions vs)
  unfolding sort_versions
  sort_versions-HasDistinct [] h = tt
  sort_versions-HasDistinct (v ∷ vs) (a, h) =
      insert_version-HasDistinct v (sort_versions vs) (All-sort_versions _ vs a)
        (sort_versions-HasDistinct vs h)

  pub HasDistinct-of_sort_versions :
      (vs : List CatalogVersion) → HasDistinct (sort_versions vs) → HasDistinct vs
  unfolding sort_versions
  HasDistinct-of_sort_versions [] h = tt
  HasDistinct-of_sort_versions (v ∷ vs) h =
      let (a, b) = HasDistinct-of_insert_version v (sort_versions vs) h in
      (All-of_sort_versions _ vs a, HasDistinct-of_sort_versions vs b)
