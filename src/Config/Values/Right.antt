-- ===== src/Config/Values/Right.antt =====
-- internal/config/config.go: when a part of `Load` appends no error, and what it then makes.
use tallybook.Prelude.{
  ◌≡◌, refl, sym, false, Option, none, some, [], ◌∷◌, arith, Bool-cases, Option-cases, inl, inr,
}
use tallybook.Prelude.Bytes.{Bytes}
use tallybook.Prelude.Result.{Result, ok, err, Result-cases}
use tallybook.Prelude.Text.{is_empty}
use tallybook.Config.Values.{
  Lookup, ConfigError, Checked, filled, require_string, get, parse_with, missing,
}

-- A variable that is set to a text that is not empty.
pub record Given (lookup : Lookup) (name value : Bytes) : Type 0 where
  pub set : lookup name ≡ some value
  pub not_empty : is_empty value ≡ false

-- A variable that is not set, or set to the empty text.
abbrev pub NotGiven : Lookup → Bytes → Type 0
NotGiven lookup name = filled (lookup name) ≡ none

filled-some :
    (o : Option Bytes) (v : Bytes) → filled o ≡ some v → (o ≡ some v) × (is_empty v ≡ false)
unfolding filled
filled-some none v h = cc
filled-some (some w) v h = elim (Bool-cases (is_empty w)) [
  | inl e ↦ ground arith
  | inr e ↦ let k : w ≡ v = ground arith in rw (sym k) ((refl, e))
]

pub Given-filled :
    (lookup : Lookup) (name v : Bytes) → filled (lookup name) ≡ some v → Given lookup name v
Given-filled lookup name v h =
    let (a, b) = filled-some (lookup name) v h in record { set = a; not_empty = b }

pub filled-Given :
    (lookup : Lookup) (name v : Bytes) → Given lookup name v → filled (lookup name) ≡ some v
unfolding filled
filled-Given lookup name v h = rw (h.set, filled, h.not_empty) refl

module _ (lookup : Lookup) (name : Bytes) where
  pub get-none : filled (lookup name) ≡ none → get lookup name ≡ (missing name ∷ [], [])
  unfolding get require_string
  get-none e = ground arith

  get-some : (v : Bytes) → filled (lookup name) ≡ some v → get lookup name ≡ ([], v)
  unfolding get require_string
  get-some v e = ground arith

  pub Given-of_get : (get lookup name).0 ≡ [] → Given lookup name (get lookup name).1
  unfolding get require_string
  Given-of_get h = elim (Option-cases (filled (lookup name))) [
    | inl e ↦ let k = get-none e in ground arith
    | inr (v, e) ↦ rw (get-some v e) (Given-filled lookup name v e)
  ]

  pub get-Given : (v : Bytes) → Given lookup name v → get lookup name ≡ ([], v)
  get-Given v h = get-some v (filled-Given lookup name v h)

  module _ {A : Type 0} (parse : Bytes → Result ConfigError A) (zero : A) where
    -- A variable that is given and parsed.
    pub record Parses (v : A) : Type 0 where
      pub raw : Bytes
      pub given : Given lookup name raw
      pub parsed : parse raw ≡ ok v

    parse_filled :
        (v : Bytes)
        → is_empty v ≡ false
        → parse_with parse zero ([], v)
          ≡ elim (parse v) as (λ x. Checked A) [ err e ↦ (e ∷ [], zero) | ok a ↦ ([], a) ]
    unfolding parse_with is_empty
    parse_filled [] e = cc
    parse_filled (b ∷ v) e = refl

    pub Parses-of_parse_with :
        (parse_with parse zero (get lookup name)).0 ≡ []
        → Parses (parse_with parse zero (get lookup name)).1
    unfolding parse_with
    Parses-of_parse_with = elim (Option-cases (filled (lookup name))) [
      | inl e ↦ rw (get-none e) (λ h. cc)
      | inr (v, e) ↦
          let g = Given-filled lookup name v e in
          elim (Result-cases (parse v)) [
            | inr (x, p) ↦ rw (get-some v e, parse_filled v g.not_empty, p) (λ h. cc)
            | inl (a, p) ↦
                rw (get-some v e, parse_filled v g.not_empty, p)
                  (λ h. record { raw = v; given = g; parsed = p })
          ]
    ]

    pub parse_with-Parses : (v : A) → Parses v → parse_with parse zero (get lookup name) ≡ ([], v)
    parse_with-Parses v h =
        rw (get-Given h.raw h.given, parse_filled h.raw h.given.not_empty, h.parsed) refl
