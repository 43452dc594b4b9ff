-- ===== src/Config/Values/Numbers.antt =====
-- internal/config/config.go: what becomes of the variables with an amount, a duration, a ledger, an
-- address and a level.
use tallybook.Prelude.{
  ℕ, ◌<◌, ◌^◌, ◌≡◌, ◌⊎◌, refl, sym, [], Option, none, some, arith, Option-cases, inl, inr,
}
use tallybook.Prelude.Bytes.{Bytes}
use tallybook.Prelude.Int.{ℤ, pos, ◌≤ℤ◌, ◌<ℤ◌}
use tallybook.Prelude.Text.{parse_nat, parse_int}
use tallybook.Config.Values.{
  Host, Lookup, Level, level_info, filled, parse_uint32, parse_log_level,
  default_safety_margin_ledgers, margin_of, parse_exposure, parse_positive, parse_ledger,
  parse_addr, parse_level,
}
use tallybook.Config.Values.Right.{Given, NotGiven, Given-filled, filled-Given, Parses}

module _ (lookup : Lookup) (name : Bytes) where
  -- An integer that is not negative.
  pub record IsExposure (o : Option ℤ) : Type 0 where
    pub raw : Bytes
    pub given : Given lookup name raw
    pub amount : ℤ
    pub parsed : parse_int raw ≡ some amount
    pub not_negative : pos 0 ≤ℤ amount
    pub value : o ≡ some amount

  -- A duration that is positive.
  pub record IsDuration (h : Host) (v : ℤ) : Type 0 where
    pub raw : Bytes
    pub given : Given lookup name raw
    pub parsed : h.parse_duration raw ≡ some v
    pub positive : pos 0 <ℤ v

  -- The digits of a number that a uint32 holds.
  pub record IsLedger (v : ℕ) : Type 0 where
    pub raw : Bytes
    pub given : Given lookup name raw
    pub parsed : parse_nat raw ≡ some v
    pub small : v < 2 ^ 32

  -- An address with a host and a port, as it was given.
  pub record IsAddr (h : Host) (v : Bytes) : Type 0 where
    pub given : Given lookup name v
    pub parts : Bytes × Bytes
    pub split : h.split_host_port v ≡ some parts

  pub record IsLevel (h : Host) (v : Level) : Type 0 where
    pub raw : Bytes
    pub given : Given lookup name raw
    pub parsed : parse_log_level h.unicode raw ≡ some v

  -- The default where the variable is not given.
  abbrev pub IsMargin : ℕ → Type 0
  IsMargin v = (NotGiven lookup name × (v ≡ default_safety_margin_ledgers)) ⊎ IsLedger v

  pub Parses-IsExposure :
      (o : Option ℤ) → Parses lookup name (parse_exposure name) none o → IsExposure o
  unfolding parse_exposure
  Parses-IsExposure o p =
      let q = p.parsed in
      elim (Option-cases (parse_int p.raw)) [
        | inl e ↦ ground arith
        | inr (v, e) ↦ record {
          raw = p.raw;
          given = p.given;
          amount = v;
          parsed = e;
          not_negative = ground arith;
          value = ground arith;
        }
      ]

  pub IsExposure-Parses :
      (o : Option ℤ) → IsExposure o → Parses lookup name (parse_exposure name) none o
  unfolding parse_exposure
  IsExposure-Parses o p =
      let e = p.parsed in
      let n = p.not_negative in
      let v = p.value in record { raw = p.raw; given = p.given; parsed = ground arith }

  pub Parses-IsDuration :
      (h : Host) (v : ℤ) → Parses lookup name (parse_positive h name) (pos 0) v → IsDuration h v
  unfolding parse_positive
  Parses-IsDuration h v p =
      let q = p.parsed in
      record { raw = p.raw; given = p.given; parsed = ground arith; positive = ground arith }

  pub IsDuration-Parses :
      (h : Host) (v : ℤ) → IsDuration h v → Parses lookup name (parse_positive h name) (pos 0) v
  unfolding parse_positive
  IsDuration-Parses h v p =
      let e = p.parsed in
      let n = p.positive in record { raw = p.raw; given = p.given; parsed = ground arith }

  pub Parses-IsLedger : (v : ℕ) → Parses lookup name (parse_ledger name) 0 v → IsLedger v
  unfolding parse_ledger parse_uint32
  Parses-IsLedger v p =
      let q = p.parsed in
      record { raw = p.raw; given = p.given; parsed = ground arith; small = ground arith }

  pub IsLedger-Parses : (v : ℕ) → IsLedger v → Parses lookup name (parse_ledger name) 0 v
  unfolding parse_ledger parse_uint32
  IsLedger-Parses v p =
      let e = p.parsed in
      let n = p.small in record { raw = p.raw; given = p.given; parsed = ground arith }

  pub Parses-IsAddr :
      (h : Host) (v : Bytes) → Parses lookup name (parse_addr h name) [] v → IsAddr h v
  unfolding parse_addr
  Parses-IsAddr h v p =
      let q = p.parsed in
      elim (Option-cases (h.split_host_port p.raw)) [
        | inl e ↦ ground arith
        | inr (parts, e) ↦
            let k : p.raw ≡ v = ground arith in
            record { given = rw (sym k) p.given; parts = parts; split = rw (sym k) e }
      ]

  pub IsAddr-Parses :
      (h : Host) (v : Bytes) → IsAddr h v → Parses lookup name (parse_addr h name) [] v
  unfolding parse_addr
  IsAddr-Parses h v p =
      let e = p.split in record { raw = v; given = p.given; parsed = ground arith }

  pub Parses-IsLevel :
      (h : Host) (v : Level) → Parses lookup name (parse_level h name) level_info v → IsLevel h v
  unfolding parse_level
  Parses-IsLevel h v p =
      let q = p.parsed in record { raw = p.raw; given = p.given; parsed = ground arith }

  pub IsLevel-Parses :
      (h : Host) (v : Level) → IsLevel h v → Parses lookup name (parse_level h name) level_info v
  unfolding parse_level
  IsLevel-Parses h v p =
      let e = p.parsed in record { raw = p.raw; given = p.given; parsed = ground arith }

  pub IsMargin-of_margin_of :
      (margin_of name (filled (lookup name))).0 ≡ []
      → IsMargin (margin_of name (filled (lookup name))).1
  unfolding margin_of parse_uint32
  IsMargin-of_margin_of = elim (Option-cases (filled (lookup name))) [
    | inl e ↦ rw (e, margin_of) (λ h. inl (refl, refl))
    | inr (raw, e) ↦ elim (Option-cases (parse_uint32 raw)) [
      | inl p ↦ rw (e, margin_of, p) (λ h. cc)
      | inr (v, p) ↦
          rw (e, margin_of, p)
            (λ h. inr (record {
              raw = raw;
              given = Given-filled lookup name raw e;
              parsed = ground arith;
              small = ground arith;
            }))
    ]
  ]

  pub margin_of-IsMargin : (v : ℕ) → IsMargin v → margin_of name (filled (lookup name)) ≡ ([], v)
  unfolding margin_of parse_uint32
  margin_of-IsMargin v (inl (n, e)) = rw (n, e, margin_of) refl
  margin_of-IsMargin v (inr l) =
      let p : parse_uint32 l.raw ≡ some v = let e = l.parsed in let n = l.small in ground arith in
      rw (filled-Given lookup name l.raw l.given, margin_of, p) refl
