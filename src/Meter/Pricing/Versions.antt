-- ===== src/Meter/Pricing/Versions.antt =====
-- `NewCatalog` and `VersionAt`.
use tallybook.Prelude.{
  ℕ, ◌≡◌, ◌≢◌, refl, inl, inr, arith, false, none, List, [], ◌∷◌, All, All-imp, Option-cases,
}
use tallybook.Prelude.Result.{ok}
use tallybook.Meter.Pricing.{
  CatalogVersion, Catalog, sort_versions, is_seen, check_version, check_versions, new_catalog,
}
use tallybook.Meter.Pricing.Sort.{
  HasDistinct, All-sort_versions, All-of_sort_versions, sort_versions-HasDistinct,
  HasDistinct-of_sort_versions,
}

-- Entries that make a catalog, in any order.
pub record IsCatalog (entries : List CatalogVersion) : Type 0 where
  pub some_entry : entries ≢ []
  pub schedules : All (λ v. v.schedule ≢ none) entries
  pub versions : HasDistinct (λ v. v.version) entries
  pub ledgers : HasDistinct (λ v. v.effective_ledger) entries

abbrev IsNew : List ℕ → List ℕ → CatalogVersion → Type 0
IsNew sv sl v =
    (v.schedule ≢ none) × (is_seen v.version sv ≡ false) × (is_seen v.effective_ledger sl ≡ false)

abbrev IsClean : List CatalogVersion → List ℕ → List ℕ → Type 0
IsClean vs sv sl =
    All (IsNew sv sl) vs
    × HasDistinct (λ v. v.version) vs
    × HasDistinct (λ v. v.effective_ledger) vs

not_seen :
    (n m : ℕ) (seen : List ℕ) → is_seen n (m ∷ seen) ≡ false → (n ≢ m) × (is_seen n seen ≡ false)
unfolding is_seen
not_seen n m seen h = ground arith

still_not_seen :
    (n m : ℕ) (seen : List ℕ) → n ≢ m → is_seen n seen ≡ false → is_seen n (m ∷ seen) ≡ false
unfolding is_seen
still_not_seen n m seen d h = ground arith

check_version-IsNew :
    (v : CatalogVersion) (sv sl : List ℕ) → check_version v sv sl ≡ none → IsNew sv sl v
unfolding check_version
check_version-IsNew v sv sl e = ground arith

check_version-none :
    (v : CatalogVersion) (sv sl : List ℕ) → IsNew sv sl v → check_version v sv sl ≡ none
unfolding check_version
check_version-none v sv sl h = ground arith

check_versions-IsClean :
    (vs : List CatalogVersion) (sv sl : List ℕ) → check_versions vs sv sl ≡ none → IsClean vs sv sl
unfolding check_versions
check_versions-IsClean [] sv sl e = (tt, tt, tt)
check_versions-IsClean (v ∷ vs) sv sl e = elim (Option-cases (check_version v sv sl)) [
  | inl new ↦
      let (a, b, c) =
        check_versions-IsClean vs (v.version ∷ sv) (v.effective_ledger ∷ sl)
          (rw (new, check_versions) at e) in
      (
        (
          check_version-IsNew v sv sl new,
          All-imp _ _ vs (λ w h. (h.0, (not_seen _ _ sv h.1).1, (not_seen _ _ sl h.2).1)) a,
        ),
        (All-imp _ _ vs (λ w h. (not_seen _ _ sv h.1).0) a, b),
        (All-imp _ _ vs (λ w h. (not_seen _ _ sl h.2).0) a, c),
      )
  | inr (x, bad) ↦ ground arith
]

both {ℓ} :
    (P Q R : CatalogVersion → Type ℓ) (vs : List CatalogVersion)
    → All P vs
    → All Q vs
    → All R vs
    → All (λ v. P v × Q v × R v) vs
both P Q R [] p q r = tt
both P Q R (v ∷ vs) p q r = ((p.0, q.0, r.0), both P Q R vs p.1 q.1 r.1)

check_versions-none :
    (vs : List CatalogVersion) (sv sl : List ℕ) → IsClean vs sv sl → check_versions vs sv sl ≡ none
unfolding check_versions
check_versions-none [] sv sl h = refl
check_versions-none (v ∷ vs) sv sl ((new, a), (dv, b), (dl, c)) =
    rw (check_version-none v sv sl new, check_versions)
      (check_versions-none vs (v.version ∷ sv) (v.effective_ledger ∷ sl) (
        All-imp _ _ vs
            (λ w h. (h.0.0, still_not_seen _ _ sv h.1 h.0.1, still_not_seen _ _ sl h.2 h.0.2))
            (both _ _ _ vs a dv dl),
        b,
        c,
      ))

sort-IsClean :
    (entries : List CatalogVersion) → IsCatalog entries → IsClean (sort_versions entries) [] []
unfolding is_seen
sort-IsClean entries h = (
  All-sort_versions (IsNew [] []) entries
      (All-imp (λ v. v.schedule ≢ none) (IsNew [] []) entries (λ v p. (p, refl, refl)) h.schedules),
  sort_versions-HasDistinct (λ v. v.version) entries h.versions,
  sort_versions-HasDistinct (λ v. v.effective_ledger) entries h.ledgers,
)

IsClean-IsCatalog :
    (entries : List CatalogVersion)
    → entries ≢ []
    → IsClean (sort_versions entries) [] []
    → IsCatalog entries
IsClean-IsCatalog entries some_entry (a, b, c) = record {
  some_entry = some_entry;
  schedules =
      All-of_sort_versions (λ v. v.schedule ≢ none) entries
        (All-imp (IsNew [] []) (λ v. v.schedule ≢ none) (sort_versions entries) (λ v p. p.0) a);
  versions = HasDistinct-of_sort_versions (λ v. v.version) entries b;
  ledgers = HasDistinct-of_sort_versions (λ v. v.effective_ledger) entries c;
}

-- `NewCatalog` accepts the entries that it documents, in any order: at least one, none without a
-- schedule, no version number and no effective ledger twice. The catalog is their sorted list.
pub new_catalog_total :
    (entries : List CatalogVersion)
    → IsCatalog entries
    → new_catalog entries ≡ ok (record { versions = sort_versions entries })
unfolding new_catalog
new_catalog_total [] h = absurd (h.some_entry refl)
new_catalog_total (x ∷ entries) h =
    rw (check_versions-none _ [] [] (sort-IsClean (x ∷ entries) h), new_catalog)

-- `NewCatalog` accepts no other entries.
pub new_catalog-IsCatalog :
    (entries : List CatalogVersion) (c : Catalog)
    → new_catalog entries ≡ ok c
    → IsCatalog entries × (c.versions ≡ sort_versions entries)
unfolding new_catalog
new_catalog-IsCatalog [] c e = cc
new_catalog-IsCatalog (x ∷ entries) c e =
    elim (Option-cases (check_versions (sort_versions (x ∷ entries)) [] [])) [
      | inl clean ↦ (
        IsClean-IsCatalog (x ∷ entries) (λ p. cc) (check_versions-IsClean _ [] [] clean),
        ground arith,
      )
      | inr (y, bad) ↦ ground arith
    ]
