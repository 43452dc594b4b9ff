-- ===== src/Meter/Schedule/Lookup.antt =====
-- `Lookup` on a parsed schedule.
use tallybook.Prelude.{
  ℕ, zero, suc, ◌≡◌, refl, subst, Option, ◌∙◌, sym, true, some, arith, List, [], ◌∷◌, Bool-cases,
  Option-cases, inl, inr, All, get_elem?,
}
use tallybook.Prelude.Result.{ok}
use tallybook.Prelude.Bytes.{Bytes, bytes_eq, bytes_eq_iff}
use tallybook.Prelude.Int.{ℤ}
use tallybook.Prelude.Text.{Unicode, to_upper, trim_space, parse_int, is_ascii, to_upper_idem}
use tallybook.Meter.Schedule.{
  Rule, ScheduleRule, Schedule, schedule_key, find_key, key_of, lookup, parse_schedule,
}
use tallybook.Meter.Schedule.Valid.{
  IsSchedule, find_rule, Reads, ReadsAll, parse_schedule-IsSchedule,
}

All-get_elem? {ℓ} :
    {A : Type 0} (P : A → Type ℓ) (xs : List A) (i : ℕ) (x : A)
    → All P xs
    → get_elem? xs i ≡ some x
    → P x
All-get_elem? P [] i x h e = cc
All-get_elem? P (y ∷ xs) zero x h e = let same : y ≡ x = cc in subst P same h.0
All-get_elem? P (y ∷ xs) (suc i) x h e = All-get_elem? P xs i x h.1 e

find_rule_place :
    (key : Bytes) (rs : List Rule) (r : Rule)
    → find_rule key rs ≡ some r
    → (i : ℕ) × (get_elem? rs i ≡ some r) × (key_of r ≡ key)
find_rule_place key [] r e = cc
find_rule_place key (q ∷ rs) r e = elim (Bool-cases (bytes_eq (key_of q) key)) [
  | inl same ↦ (0, ground arith, ground (arith, bytes_eq_iff (key_of q) key))
  | inr differ ↦ let (i, p, k) = find_rule_place key rs r (ground arith) in (suc i, p, k)
]

module _ (u : Unicode) (s : Schedule) (valid : IsSchedule s) where
  -- In a schedule in order, every rule is found, under any spelling of its method that has the same capitals: the answer is
  -- its price.
  lookup-get_elem? :
      (i : ℕ) (r : Rule) (method : Bytes)
      → get_elem? s.rules i ≡ some r
      → to_upper u method ≡ r.method
      → lookup u s method r.path_template ≡ some r.unit_price
  unfolding lookup
  lookup-get_elem? i r method place same =
      rw (same, All-get_elem? _ s.rules i r valid.found place, lookup)

  -- In a schedule in order, a price that is found is that of a rule of the schedule, whose key is that of the method in
  -- capitals and the path as given.
  pub lookup_sound :
      (method path : Bytes) (price : ℤ)
      → lookup u s method path ≡ some price
      → (i : ℕ) × ((r : Rule) × (get_elem? s.rules i ≡ some r)
          × (key_of r ≡ schedule_key (to_upper u method) path)
          × (price ≡ r.unit_price))
  unfolding lookup
  lookup_sound method path price e =
      elim (Option-cases (find_key (schedule_key (to_upper u method) path) s.by_key)) [
        | inl f ↦ ground arith
        | inr (r, f) ↦
            let (i, p, k) = find_rule_place _ s.rules r (sym (valid.index _) ∙ f) in
            (i, (r, p, k, ground arith))
      ]

-- For an ASCII method, `Lookup` answers the same whether the method is in capitals or not.
pub lookup-to_upper :
    (u : Unicode) (s : Schedule) (method path : Bytes)
    → is_ascii method ≡ true
    → lookup u s (to_upper u method) path ≡ lookup u s method path
unfolding lookup
lookup-to_upper u s method path h = rw (to_upper_idem u method h, lookup)

-- An entry of a document and the rule of the same place.
ReadsAll-at :
    (u : Unicode) (doc : List ScheduleRule) (rs : List Rule) (i : ℕ) (rr : ScheduleRule)
    → ReadsAll u doc rs
    → get_elem? doc i ≡ some rr
    → (r : Rule) × ((get_elem? rs i ≡ some r) × Reads u rr r)
ReadsAll-at u [] [] i rr h e = cc
ReadsAll-at u [] (r ∷ rs) i rr h e = absurd h
ReadsAll-at u (x ∷ doc) [] i rr h e = absurd h
ReadsAll-at u (x ∷ doc) (r ∷ rs) zero rr h e =
    let same : x ≡ rr = cc in (r, (refl, subst (λ y. Reads u y r) same h.0))
ReadsAll-at u (x ∷ doc) (r ∷ rs) (suc i) rr h e = ReadsAll-at u doc rs i rr h.1 e

-- Let a document parse. Then every one of its entries is found, under any spelling of the entry's
-- method that has the capitals of the trimmed one, and under the entry's path, trimmed; the answer
-- is the integer that the entry's price spells.
pub parse_schedule-lookup :
    (u : Unicode) (unmarshal : Bytes → Option (List ScheduleRule)) (raw : Bytes)
    (doc : List ScheduleRule) (s : Schedule) (i : ℕ) (rr : ScheduleRule) (method : Bytes)
    → unmarshal raw ≡ some doc
    → parse_schedule u unmarshal raw ≡ ok s
    → get_elem? doc i ≡ some rr
    → to_upper u method ≡ to_upper u (trim_space u rr.method)
    → (price : ℤ) × (parse_int (trim_space u rr.unit_price) ≡ some price)
      × (lookup u s method (trim_space u rr.path_template) ≡ some price)
parse_schedule-lookup u unmarshal raw doc s i rr method d p e same =
    let (valid, (doc', d', reads)) = parse_schedule-IsSchedule u unmarshal raw s p in
    let one : doc' ≡ doc = cc in
    let (r, (at, from)) =
      ReadsAll-at u doc s.rules i rr (subst (λ x. ReadsAll u x s.rules) one reads) e in
    (
      r.unit_price,
      from.unit_price,
      rw (sym from.path_template)
          (lookup-get_elem? u s valid i r method at (same ∙ sym from.method)),
    )
