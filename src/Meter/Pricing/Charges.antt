-- ===== src/Meter/Pricing/Charges.antt =====
-- `Price`: the charge, where it comes from, and whether a leaf can hold it.
use tallybook.Prelude.{
  ℕ, ◌-◌, ◌*◌, ◌^◌, ◌≤◌, ◌<◌, ◌≡◌, ◌≢◌, refl, inl, inr, arith, Option, none, some, List, All,
  Option-cases,
}
use tallybook.Prelude.Bytes.{Bytes}
use tallybook.Prelude.Int.{ℤ, pos, ◌*ℤ◌}
use tallybook.Prelude.Result.{Result, ok, err, Result-cases}
use tallybook.Prelude.Text.{Unicode}
use tallybook.Stellar.ScVal.{ScVal}
use tallybook.Stellar.Xdr.I128.{IsI128}
use tallybook.Merkle.Leaf.{Record, LeafError, leaf}
use tallybook.Merkle.Leaf.Keys.{leaf_out_of_range}
use tallybook.Meter.Schedule.{Schedule, lookup}
use tallybook.Meter.Pricing.{
  CatalogVersion, Catalog, PriceError, PricedRequest, no_version_at, unknown_endpoint, nil_pointer,
  new_catalog, version_at, charge, price,
}
use tallybook.Meter.Pricing.Versions.{new_catalog-IsCatalog}
use tallybook.Meter.Pricing.Effective.{All-In, InEffect, Answers, version_at-Answers}

module _ (u : Unicode) (entries : List CatalogVersion) (ledger : ℕ) (method path : Bytes) where
  -- The schedule in effect, and its answer for the endpoint.
  pub record Prices (v : CatalogVersion) (answer : Option ℤ) : Type 0 where
    pub in_effect : InEffect ledger entries v
    pub schedule : Schedule
    pub published : v.schedule ≡ some schedule
    pub answers : lookup u schedule method path ≡ answer

  -- What `Price` answers for some units.
  abbrev pub Charges : ℕ → Result PriceError PricedRequest → Type 0
  Charges units (ok r) =
      (v : CatalogVersion) × ((unit_price : ℤ) × Prices v (some unit_price)
        × (r.charged_amount ≡ unit_price *ℤ pos units)
        × (r.price_version ≡ v.version))
  Charges units (err (no_version_at l first)) =
      (l ≡ ledger) × (ledger < first) × All (λ w. first ≤ w.effective_ledger) entries
  Charges units (err (unknown_endpoint n)) = (v : CatalogVersion) × Prices v none × (n ≡ v.version)
  Charges units (err nil_pointer) = ⊥

  charge-Charges :
      (v : CatalogVersion) (units : ℕ)
      → InEffect ledger entries v
      → v.schedule ≢ none
      → Charges units (charge u v method path units)
  unfolding charge
  charge-Charges v units h some_schedule = elim (Option-cases v.schedule) [
    | inl e ↦ absurd (some_schedule e)
    | inr (s, e) ↦ elim (Option-cases (lookup u s method path)) [
      | inl missing ↦
          rw (e, missing, Charges)
            (v, record { in_effect = h; schedule = s; published = e; answers = missing }, refl)
      | inr (unit_price, found) ↦
          rw (e, found, Charges)
            (
              v,
              (
                unit_price,
                record { in_effect = h; schedule = s; published = e; answers = found },
                refl,
                refl,
              ),
            )
    ]
  ]

  -- On a catalog that `NewCatalog` made, `Price` charges the unit price that the schedule in effect
  -- at the ledger has for the endpoint, times the units, and names that schedule's version. It fails
  -- when every version starts later, or when the schedule in effect has no rule for the endpoint,
  -- and it never meets a nil schedule.
  pub price-Charges :
      (c : Catalog) (units : ℕ)
      → new_catalog entries ≡ ok c
      → Charges units (price u c ledger method path units)
  unfolding price
  price-Charges c units made = elim (Result-cases (version_at c ledger)) [
    | inl (v, e) ↦
        let h : InEffect ledger entries v =
          rw (e, Answers) at (version_at-Answers entries c ledger made) in
        let valid = (new_catalog-IsCatalog entries c made).0 in
        rw e (
          charge-Charges v units h
            (All-In (λ w. w.schedule ≢ none) v entries valid.schedules h.member))
    | inr (x, e) ↦
        let (first, same, early, all) =
          rw (e, Answers) at (version_at-Answers entries c ledger made) in
        rw (e, same, Charges) (refl, early, all)
  ]

pos-mul : (n m : ℕ) → pos n *ℤ pos m ≡ pos (n * m)
pos-mul n m = ground arith

scaled_le : (n units : ℕ) → n ≤ 2 ^ 63 → n * units ≤ 2 ^ 63 * units
scaled_le n units h = grind arith

over_range : (n : ℕ) → 2 ^ 63 < n → ¬ (IsI128 (pos (n * (2 ^ 64 - 1))))
over_range n h = λ range. absurd (omega (arith, range.1))

-- A charge fits an i128 whatever the number of units, which is a uint64, if the unit price is at
-- most 2^63.
pub charge_fits : (n units : ℕ) → n ≤ 2 ^ 63 → units < 2 ^ 64 → IsI128 (pos n *ℤ pos units)
charge_fits n units h k = rw (pos-mul n units) (omega (arith, scaled_le n units h))

-- Where the schedule in effect has a unit price above 2^63 for an endpoint, `Price` answers a charge
-- for 2^64 - 1 units, and `Leaf` refuses every record with that amount as out of the i128 range.
pub charge_overflows :
    (u : Unicode) (c : Catalog) (ledger : ℕ) (method path : Bytes) (v : CatalogVersion)
    (s : Schedule) (n : ℕ)
    → version_at c ledger ≡ ok v
    → v.schedule ≡ some s
    → lookup u s method path ≡ some (pos n)
    → 2 ^ 63 < n
    → (r : PricedRequest) × (price u c ledger method path (2 ^ 64 - 1) ≡ ok r)
      × ((decode_account : Bytes → Option Bytes) (marshal : ScVal → Option Bytes)
            (sha256 : Bytes → Bytes) (request : Record)
          → request.amount ≡ some r.charged_amount
          → leaf decode_account marshal sha256 request
            ≡ err (LeafError.out_of_i128_range r.charged_amount))
unfolding price charge
charge_overflows u c ledger method path v s n at published found h = (
  record { charged_amount = pos n *ℤ pos (2 ^ 64 - 1); price_version = v.version },
  rw (at, published, found),
  λ decode_account marshal sha256 request amount.
      leaf_out_of_range decode_account marshal sha256 request _ amount
        (rw (pos-mul n (2 ^ 64 - 1)) (over_range n h)),
)
