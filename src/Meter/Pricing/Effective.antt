-- ===== src/Meter/Pricing/Effective.antt =====
-- `VersionAt`: the version that is in effect at a ledger.
use mathlib.Core.List.{reverse, reverse-append}
use tallybook.Prelude.{
  ℕ, ◌≤◌, ◌<◌, ◌≡◌, ◌≢◌, refl, sym, ap, ◌∙◌, ◌⊎◌, inl, inr, arith, Option, none, some, List, [],
  ◌∷◌, ◌++◌, All, All-imp, leb, if◌then◌else◌, Bool-cases, Option-cases, subst,
}
use tallybook.Prelude.Result.{Result, ok, err, ◌>>=◌}
use tallybook.Meter.Pricing.{
  CatalogVersion, Catalog, PriceError, no_version_at, sort_versions, insert_version, new_catalog,
  find_version, earliest, version_at,
}
use tallybook.Meter.Pricing.Sort.{IsSorted, All-of_sort_versions, sort_versions-IsSorted}
use tallybook.Meter.Pricing.Versions.{new_catalog-IsCatalog}

abbrev pub In : CatalogVersion → List CatalogVersion → Type 0
In x [] = ⊥
In x (v ∷ vs) = (x ≡ v) ⊎ In x vs

In-of_insert_version :
    (x v : CatalogVersion) (vs : List CatalogVersion) → In x (insert_version v vs) → In x (v ∷ vs)
unfolding insert_version
In-of_insert_version x v [] h = h
In-of_insert_version x v (w ∷ vs) h =
    elim (Bool-cases (leb v.effective_ledger w.effective_ledger)) [
      | inl p ↦ rw (p, insert_version) at h
      | inr p ↦
          let split : (x ≡ w) ⊎ In x (insert_version v vs) = rw (p, insert_version) at h in
          elim split [
            | inl e ↦ inr (inl e)
            | inr r ↦ elim (In-of_insert_version x v vs r) [ inl e ↦ inl e | inr q ↦ inr (inr q) ]
          ]
    ]

In-of_sort_versions :
    (x : CatalogVersion) (vs : List CatalogVersion) → In x (sort_versions vs) → In x vs
unfolding sort_versions
In-of_sort_versions x [] h = h
In-of_sort_versions x (v ∷ vs) h = elim (In-of_insert_version x v (sort_versions vs) h) [
  | inl e ↦ inl e
  | inr r ↦ inr (In-of_sort_versions x vs r)
]

-- The backward loop as a recursion from the front.
last_at : ℕ → List CatalogVersion → Option CatalogVersion
last_at ledger [] = none
last_at ledger (v ∷ vs) = elim (last_at ledger vs) [
  | some w ↦ some w
  | none ↦ if leb v.effective_ledger ledger then some v else none
]

find_version-append :
    (ledger : ℕ) (xs : List CatalogVersion) (v : CatalogVersion)
    → find_version ledger (xs ++ (v ∷ [])) ≡ elim (find_version ledger xs) [
      | some w ↦ some w
      | none ↦ if leb v.effective_ledger ledger then some v else none
    ]
unfolding find_version
find_version-append ledger [] v = refl
find_version-append ledger (x ∷ xs) v = ground (arith, find_version-append ledger xs v)

find_version-reverse :
    (ledger : ℕ) (vs : List CatalogVersion) → find_version ledger (reverse vs) ≡ last_at ledger vs
unfolding last_at
find_version-reverse ledger [] = unfold find_version in refl
find_version-reverse ledger (v ∷ vs) =
    ap (find_version ledger) (reverse-append (v ∷ []) vs)
    ∙ find_version-append ledger (reverse vs) v
    ∙ rw (find_version-reverse ledger vs, last_at)

-- The version of the entries that is in effect at a ledger: the latest that is not after it.
pub record InEffect (ledger : ℕ) (entries : List CatalogVersion) (v : CatalogVersion) : Type 0 where
  pub member : In v entries
  pub started : v.effective_ledger ≤ ledger
  pub latest :
      All (λ w. w.effective_ledger ≤ ledger → w.effective_ledger ≤ v.effective_ledger) entries

pub All-In :
    (P : CatalogVersion → Type 0) (x : CatalogVersion) (vs : List CatalogVersion)
    → All P vs
    → In x vs
    → P x
All-In P x [] h m = absurd m
All-In P x (v ∷ vs) h (inl e) = subst P (sym e) h.0
All-In P x (v ∷ vs) h (inr m) = All-In P x vs h.1 m

last_at-none :
    (ledger : ℕ) (vs : List CatalogVersion)
    → last_at ledger vs ≡ none
    → All (λ w. ledger < w.effective_ledger) vs
unfolding last_at
last_at-none ledger [] e = tt
last_at-none ledger (v ∷ vs) e = ground (arith, last_at-none ledger vs)

last_at-InEffect :
    (ledger : ℕ) (vs : List CatalogVersion) (v : CatalogVersion)
    → IsSorted vs
    → last_at ledger vs ≡ some v
    → InEffect ledger vs v
unfolding last_at
last_at-InEffect ledger [] v h e = cc
last_at-InEffect ledger (x ∷ vs) v (a, h) e = elim (Option-cases (last_at ledger vs)) [
  | inl none_later ↦
      let same : x ≡ v = ground arith in
      let started : x.effective_ledger ≤ ledger = ground arith in
      subst (InEffect ledger (x ∷ vs)) same (record {
        member = inl refl;
        started = started;
        latest = (
          λ _. omega arith,
          All-imp _ _ vs (λ w p q. absurd (omega arith)) (last_at-none ledger vs none_later),
        );
      })
  | inr (w, later) ↦
      let same : w ≡ v = ground arith in
      let rest = last_at-InEffect ledger vs w h later in
      subst (InEffect ledger (x ∷ vs)) same (record {
        member = inr rest.member;
        started = rest.started;
        latest = (λ _. All-In _ w vs a rest.member, rest.latest);
      })
]

-- What `VersionAt` answers on a catalog made from some entries: the one in effect, or an error
-- when every entry starts later, which names the earliest start.
abbrev pub Answers : ℕ → List CatalogVersion → Result PriceError CatalogVersion → Type 0
Answers ledger entries (ok v) = InEffect ledger entries v
Answers ledger entries (err e) =
    (first : ℕ) × (e ≡ no_version_at ledger first)
    × (ledger < first)
    × All (λ w. first ≤ w.effective_ledger) entries

InEffect-of_sort_versions :
    (ledger : ℕ) (entries : List CatalogVersion) (v : CatalogVersion)
    → InEffect ledger (sort_versions entries) v
    → InEffect ledger entries v
InEffect-of_sort_versions ledger entries v h = record {
  member = In-of_sort_versions v entries h.member;
  started = h.started;
  latest = All-of_sort_versions _ entries h.latest;
}

no_version-Answers :
    (ledger : ℕ) (entries vs : List CatalogVersion)
    → vs ≢ []
    → IsSorted vs
    → ((P : CatalogVersion → Type 0) → All P vs → All P entries)
    → All (λ w. ledger < w.effective_ledger) vs
    → Answers ledger entries (earliest vs >>= λ first. err (no_version_at ledger first))
unfolding earliest
no_version-Answers ledger entries [] some_version h back late = absurd (some_version refl)
no_version-Answers ledger entries (v ∷ vs) some_version (a, h) back (l, late) = (
  v.effective_ledger,
  refl,
  l,
  back (λ w. v.effective_ledger ≤ w.effective_ledger) (omega arith, a),
)

insert_version-ne-nil : (v : CatalogVersion) (vs : List CatalogVersion) → insert_version v vs ≢ []
unfolding insert_version
insert_version-ne-nil v [] = λ e. cc
insert_version-ne-nil v (w ∷ vs) = λ e. ground arith

sort_versions-ne-nil : (vs : List CatalogVersion) → vs ≢ [] → sort_versions vs ≢ []
unfolding sort_versions
sort_versions-ne-nil [] h = h
sort_versions-ne-nil (v ∷ vs) h = insert_version-ne-nil v (sort_versions vs)

-- On a catalog that `NewCatalog` made, `VersionAt` answers the entry with the greatest effective
-- ledger that is not after the ledger asked for, wherever it stood among the entries, and fails,
-- naming the earliest effective ledger, when all are after it. It never panics.
pub version_at-Answers :
    (entries : List CatalogVersion) (c : Catalog) (ledger : ℕ)
    → new_catalog entries ≡ ok c
    → Answers ledger entries (version_at c ledger)
unfolding version_at
version_at-Answers entries c ledger made =
    let (valid, sorted) = new_catalog-IsCatalog entries c made in
    let order : IsSorted c.versions = rw sorted (sort_versions-IsSorted entries) in
    elim (Option-cases (find_version ledger (reverse c.versions))) [
      | inl missing ↦
          rw (missing, version_at)
            (no_version-Answers ledger entries c.versions
              (rw sorted (sort_versions-ne-nil entries valid.some_entry)) order
              (λ P h. All-of_sort_versions P entries (rw sorted at h))
              (last_at-none ledger c.versions
                (sym (find_version-reverse ledger c.versions) ∙ missing)))
      | inr (v, found) ↦
          rw (found, version_at)
            (InEffect-of_sort_versions ledger entries v (
              rw sorted at (
                last_at-InEffect ledger c.versions v order
                  (sym (find_version-reverse ledger c.versions) ∙ found))))
    ]
