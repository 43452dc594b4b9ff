-- ===== src/Meter/Schedule/Valid.antt =====
-- What a parsed schedule holds: the document's rules, in order, each checked, under distinct keys.
use tallybook.Prelude.{
  ℕ, suc, ◌≡◌, refl, subst, ◌∙◌, true, false, Option, none, some, arith, List, [], ◌∷◌, ◌++◌,
  if◌then◌else◌, All, All-append, All-imp, Option-cases, inl, inr, append-nil, append_assoc,
}
use tallybook.Prelude.Bytes.{Bytes, bytes_eq, bytes_eq_iff, bytes_eq_refl}
use tallybook.Prelude.Int.{pos, ◌≤ℤ◌}
use tallybook.Prelude.Result.{ok, Result-cases}
use tallybook.Prelude.Text.{Unicode, to_upper, trim_space, is_empty, starts_with_slash, parse_int}
use tallybook.Stellar.Xdr.{i128_max}
use tallybook.Meter.Schedule.{
  Rule, ScheduleRule, Schedule, find_key, has_key, key_of, parse_rule, parse_rules, parse_document,
  parse_schedule,
}

-- A rule that can be priced.
pub record IsRule (r : Rule) : Type 0 where
  pub method : is_empty r.method ≡ false
  pub path_template : starts_with_slash r.path_template ≡ true
  pub not_negative : pos 0 ≤ℤ r.unit_price
  pub in_range : r.unit_price ≤ℤ i128_max

module _ (u : Unicode) where
  -- How a rule comes from the document: the method in capitals, all three texts trimmed.
  pub record Reads (rr : ScheduleRule) (r : Rule) : Type 0 where
    pub method : r.method ≡ to_upper u (trim_space u rr.method)
    pub path_template : r.path_template ≡ trim_space u rr.path_template
    pub unit_price : parse_int (trim_space u rr.unit_price) ≡ some r.unit_price

  find_key-of_has_key :
      (key : Bytes) (m : List (Bytes × Rule)) → has_key key m ≡ false → find_key key m ≡ none
  unfolding has_key
  find_key-of_has_key key m h = ground arith

  record Accepts (m : List (Bytes × Rule)) (rr : ScheduleRule) (r : Rule) : Type 0 where
    reads : Reads rr r
    rule : IsRule r
    fresh : has_key (key_of r) m ≡ false

  parse_rule-Accepts :
      (m : List (Bytes × Rule)) (rr : ScheduleRule) (r : Rule)
      → parse_rule u m rr ≡ ok r
      → Accepts m rr r
  unfolding parse_rule
  parse_rule-Accepts m rr r e = ground arith

-- The first rule of a list with a key.
abbrev pub find_rule : Bytes → List Rule → Option Rule
find_rule key [] = none
find_rule key (r ∷ rs) = if bytes_eq (key_of r) key then some r else find_rule key rs

-- Every rule can be priced and is the one found under its key, and a key leads to the first rule
-- with it.
pub record IsSchedule (s : Schedule) : Type 0 where
  pub rules : All IsRule s.rules
  pub found : All (λ r. find_key (key_of r) s.by_key ≡ some r) s.rules
  pub index : (key : Bytes) → find_key key s.by_key ≡ find_rule key s.rules

abbrev pub add_rule : Rule → Schedule → Schedule
add_rule r s = record { rules = s.rules ++ (r ∷ []); by_key = (key_of r, r) ∷ s.by_key }

find_rule-append :
    (key : Bytes) (rs : List Rule) (r : Rule)
    → find_rule key (rs ++ (r ∷ [])) ≡ elim (find_rule key rs) [
      | some q ↦ some q
      | none ↦ if bytes_eq (key_of r) key then some r else none
    ]
find_rule-append key [] r = refl
find_rule-append key (q ∷ rs) r = ground (arith, find_rule-append key rs r)

add_rule-index :
    (r : Rule) (s : Schedule)
    → IsSchedule s
    → find_key (key_of r) s.by_key ≡ none
    → (key : Bytes) → find_key key (add_rule r s).by_key ≡ find_rule key (add_rule r s).rules
unfolding find_key
add_rule-index r s h fresh key =
    rw (find_rule-append key s.rules r, ← h.index key) (ground (arith, bytes_eq_iff (key_of r) key))

add_rule-IsSchedule :
    (r : Rule) (s : Schedule)
    → IsSchedule s
    → IsRule r
    → find_key (key_of r) s.by_key ≡ none
    → IsSchedule (add_rule r s)
unfolding find_key
add_rule-IsSchedule r s h valid fresh = record {
  rules = All-append IsRule s.rules (r ∷ []) h.rules (valid, tt);
  found =
      All-append _ s.rules (r ∷ [])
        (All-imp _ _ s.rules (λ q e. ground (arith, bytes_eq_iff (key_of r) (key_of q))) h.found)
        (ground (arith, bytes_eq_refl (key_of r)), tt);
  index = add_rule-index r s h fresh;
}

module _ (u : Unicode) where
  -- The rules of a document, one for one and in its order.
  abbrev pub ReadsAll : List ScheduleRule → List Rule → Type 0
  ReadsAll [] [] = Unit
  ReadsAll [] (r ∷ rs) = ⊥
  ReadsAll (rr ∷ doc) [] = ⊥
  ReadsAll (rr ∷ doc) (r ∷ rs) = Reads u rr r × ReadsAll doc rs

  parse_rules-IsSchedule :
      (doc : List ScheduleRule) (i : ℕ) (s t : Schedule)
      → IsSchedule s
      → parse_rules u doc i s ≡ ok t
      → IsSchedule t × ((rs : List Rule) × (t.rules ≡ s.rules ++ rs) × ReadsAll doc rs)
  unfolding parse_rules
  parse_rules-IsSchedule [] i s t h e =
      let same : s ≡ t = cc in (subst IsSchedule same h, ([], rw (append-nil, same), tt))
  parse_rules-IsSchedule (rr ∷ doc) i s t h e = elim (Result-cases (parse_rule u s.by_key rr)) [
    | inl (r, p) ↦
        let a = parse_rule-Accepts u s.by_key rr r p in
        let (valid, (rs, q, reads)) =
          parse_rules-IsSchedule doc (suc i) (add_rule r s) t
            (add_rule-IsSchedule r s h a.rule (find_key-of_has_key u (key_of r) s.by_key a.fresh))
            (rw (p, parse_rules) at e) in
        (valid, (r ∷ rs, q ∙ append_assoc s.rules (r ∷ []) rs, (a.reads, reads)))
    | inr (x, p) ↦ cc (rw (p, parse_rules) at e)
  ]

  -- A schedule that `ParseSchedule` returns holds the document's rules, one for one and in its
  -- order, with the method trimmed and in capitals and the other texts trimmed; each has a method,
  -- a path that starts with a slash and a price from 0 to 2^127 - 1; and its map finds each rule
  -- under the rule's key, and under any key the first rule that has it.
  pub parse_schedule-IsSchedule :
      (unmarshal : Bytes → Option (List ScheduleRule)) (raw : Bytes) (s : Schedule)
      → parse_schedule u unmarshal raw ≡ ok s
      → IsSchedule s
        × ((doc : List ScheduleRule) × (unmarshal raw ≡ some doc) × ReadsAll doc s.rules)
  unfolding parse_schedule parse_document
  parse_schedule-IsSchedule unmarshal raw s e = elim (Option-cases (unmarshal raw)) [
    | inl d ↦ cc (rw (d, parse_schedule) at e)
    | inr ([], d) ↦ cc (rw d at e)
    | inr (rr ∷ doc, d) ↦
        let (valid, (rs, q, reads)) =
          parse_rules-IsSchedule (rr ∷ doc) 0 (record { rules = []; by_key = [] }) s
            (record { rules = tt; found = tt; index = λ key. unfold find_key in refl })
            (rw d at e) in
        (valid, (rr ∷ doc, d, rw q reads))
  ]
