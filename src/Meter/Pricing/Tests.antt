-- ===== src/Meter/Pricing/Tests.antt =====
-- A catalog of two versions, and the theorems at it.
use tallybook.Prelude.{ℕ, ◌≡◌, refl, ◌^◌, ◌-◌, ◌+◌, Option, some, List, [], ◌∷◌, arith}
use tallybook.Prelude.Bytes.{Bytes, ascii, bytes_eq}
use tallybook.Prelude.Int.{pos}
use tallybook.Prelude.Result.{ok, err}
use tallybook.Prelude.Text.{Unicode, to_upper}
use tallybook.Stellar.ScVal.{ScVal}
use tallybook.Merkle.Leaf.{Record, LeafError, leaf}
use tallybook.Meter.Schedule.{Rule, Schedule, lookup, find_key, schedule_key}
use tallybook.Meter.Pricing.{
  CatalogVersion, Catalog, PricedRequest, sort_versions, insert_version, check_versions,
  check_version, new_catalog, find_version, version_at, price,
}
use tallybook.Meter.Pricing.Versions.{IsCatalog, new_catalog_total, new_catalog-IsCatalog}
use tallybook.Meter.Pricing.Effective.{Answers, version_at-Answers}
use tallybook.Meter.Pricing.Charges.{Charges, price-Charges, charge_overflows}

abbrev unicode : Unicode
unicode = record { upper_wide = λ s. s; lower_wide = λ s. s; trim_wide = λ s. s }

abbrev dear : ℕ
dear = 2 ^ 63 + 1

abbrev rule : Rule
rule = record { method = ascii "GET"; path_template = ascii "/v"; unit_price = pos dear }

abbrev schedule : Schedule
schedule = record { rules = rule ∷ []; by_key = (ascii "GET /v", rule) ∷ [] }

abbrev newer : CatalogVersion
newer = record { version = 2; effective_ledger = 200; schedule = some schedule }

abbrev older : CatalogVersion
older = record { version = 1; effective_ledger = 100; schedule = some schedule }

abbrev entries : List CatalogVersion
entries = newer ∷ older ∷ []

abbrev catalog : Catalog
catalog = record { versions = older ∷ newer ∷ [] }

entries-catalog : new_catalog entries ≡ ok catalog
unfolding new_catalog check_versions check_version sort_versions insert_version
entries-catalog = refl

new_catalog-IsCatalog_example : IsCatalog entries × (catalog.versions ≡ sort_versions entries)
new_catalog-IsCatalog_example = new_catalog-IsCatalog entries catalog entries-catalog

new_catalog_total_example : new_catalog entries ≡ ok (record { versions = sort_versions entries })
new_catalog_total_example =
    new_catalog_total entries (new_catalog-IsCatalog entries catalog entries-catalog).0

version_at-Answers_example : Answers 150 entries (version_at catalog 150)
version_at-Answers_example = version_at-Answers entries catalog 150 entries-catalog

price-Charges_example :
    Charges unicode entries 150
      (ascii "get")
      (ascii "/v")
      7
      (price unicode catalog 150 (ascii "get") (ascii "/v") 7)
price-Charges_example =
    price-Charges unicode entries 150 (ascii "get") (ascii "/v") catalog 7 entries-catalog

older_at_150 : version_at catalog 150 ≡ ok older
unfolding version_at find_version
older_at_150 = refl

get-found : lookup unicode schedule (ascii "GET") (ascii "/v") ≡ some (pos dear)
unfolding lookup to_upper find_key schedule_key bytes_eq
get-found = refl

charge_overflows_example :
    (r : PricedRequest) × (price unicode catalog 150 (ascii "GET") (ascii "/v") (2 ^ 64 - 1) ≡ ok r)
    × ((decode_account : Bytes → Option Bytes) (marshal : ScVal → Option Bytes)
          (sha256 : Bytes → Bytes) (request : Record)
        → request.amount ≡ some r.charged_amount
        → leaf decode_account marshal sha256 request
          ≡ err (LeafError.out_of_i128_range r.charged_amount))
charge_overflows_example =
    charge_overflows unicode catalog 150 (ascii "GET") (ascii "/v") older schedule dear older_at_150
      refl get-found (omega arith)
