-- ===== src/Meter/Pricing.antt =====
-- internal/meter/pricing.go. A `*Schedule` that may be nil is an `Option Schedule`; uint32 and
-- uint64 values are numbers. `sort.Slice` is an insertion sort: it orders entries of one effective
-- ledger as they came, and `NewCatalog` refuses those.
pub mod Sort
pub mod Versions
pub mod Effective
pub mod Charges
mod Tests
use mathlib.Core.List.{reverse}
use tallybook.Prelude.{
  ℕ, ◌*◌, Bool, true, false, Option, none, some, List, [], ◌∷◌, ◌==◌, ltb, leb, if◌then◌else◌,
}
use tallybook.Prelude.Bytes.{Bytes}
use tallybook.Prelude.Int.{ℤ, pos, ◌*ℤ◌}
use tallybook.Prelude.Result.{Result, ok, err, ◌>>=◌, or_fail, map_err}
use tallybook.Prelude.Text.{Unicode}
use tallybook.Meter.Schedule.{Schedule, lookup}

pub record CatalogVersion : Type 0 where
  pub version : ℕ
  pub effective_ledger : ℕ
  pub schedule : Option Schedule

pub record Catalog : Type 0 where
  pub versions : List CatalogVersion

pub data CatalogError : Type 0 where
  empty_catalog : CatalogError
  nil_schedule duplicate_version duplicate_ledger : ℕ → CatalogError

-- `no_version_at` names the ledger and that of the earliest version. `nil_pointer` is a panic.
pub data PriceError : Type 0 where
  no_version_at : ℕ → ℕ → PriceError
  unknown_endpoint : ℕ → PriceError
  nil_pointer : PriceError

pub insert_version : CatalogVersion → List CatalogVersion → List CatalogVersion
insert_version v [] = v ∷ []
insert_version v (w ∷ ws) =
    if leb v.effective_ledger w.effective_ledger then v ∷ w ∷ ws else w ∷ insert_version v ws

pub sort_versions : List CatalogVersion → List CatalogVersion
unfolding insert_version
sort_versions [] = []
sort_versions (v ∷ vs) = insert_version v (sort_versions vs)

-- `seen[n]`
pub is_seen : ℕ → List ℕ → Bool
is_seen n [] = false
is_seen n (m ∷ seen) = if n == m then true else is_seen n seen

-- The checks of one version against the versions and ledgers seen so far.
pub check_version : CatalogVersion → List ℕ → List ℕ → Option CatalogError
unfolding is_seen
check_version v seen_version seen_ledger = elim v.schedule [
  | none ↦ some (nil_schedule v.version)
  | some _ ↦
      if is_seen v.version seen_version
      then some (duplicate_version v.version)
      else if is_seen v.effective_ledger seen_ledger
      then some (duplicate_ledger v.effective_ledger)
      else none
]

pub check_versions : List CatalogVersion → List ℕ → List ℕ → Option CatalogError
check_versions [] seen_version seen_ledger = none
check_versions (v ∷ vs) seen_version seen_ledger =
    let rest = check_versions vs (v.version ∷ seen_version) (v.effective_ledger ∷ seen_ledger) in
    elim (check_version v seen_version seen_ledger) [ some e ↦ some e | none ↦ rest ]

pub new_catalog : List CatalogVersion → Result CatalogError Catalog
new_catalog [] = err empty_catalog
new_catalog (e ∷ entries) = elim (check_versions (sort_versions (e ∷ entries)) [] []) [
  | some x ↦ err x
  | none ↦ ok (record { versions = sort_versions (e ∷ entries) })
]

-- The loop of `VersionAt`, on the versions from the last to the first.
unfoldable pub find_version : ℕ → List CatalogVersion → Option CatalogVersion
find_version ledger [] = none
find_version ledger (v ∷ vs) =
    if leb v.effective_ledger ledger then some v else find_version ledger vs

-- `c.versions[0].EffectiveLedger`, of a catalog with a version.
pub earliest : List CatalogVersion → Result PriceError ℕ
earliest [] = err nil_pointer
earliest (v ∷ vs) = ok v.effective_ledger

unfoldable pub version_at : Catalog → ℕ → Result PriceError CatalogVersion
version_at c ledger = elim (find_version ledger (reverse c.versions)) [
  | some v ↦ ok v
  | none ↦ earliest c.versions >>= λ first. err (no_version_at ledger first)
]

pub record PricedRequest : Type 0 where
  pub charged_amount : ℤ
  pub price_version : ℕ

module _ (u : Unicode) where
  unfoldable pub charge : CatalogVersion → Bytes → Bytes → ℕ → Result PriceError PricedRequest
  charge v method path_template units = do
    schedule ← or_fail v.schedule nil_pointer
    unit_price ← or_fail (lookup u schedule method path_template) (unknown_endpoint v.version)
    ok (record { charged_amount = unit_price *ℤ pos units; price_version = v.version })

  -- `Pricer.Price`; a `Pricer` is its catalog.
  unfoldable pub price : Catalog → ℕ → Bytes → Bytes → ℕ → Result PriceError PricedRequest
  price c ledger method path_template units = do
    version ← version_at c ledger
    charge version method path_template units
