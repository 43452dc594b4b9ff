-- ===== src/Meter/Schedule.antt =====
-- internal/meter/schedule.go. The document that `json.Unmarshal` reads is the parameter
-- `unmarshal`, `none` where it fails. The map `byKey` is a list of pairs, the newest first.
pub mod Valid
pub mod Lookup
pub mod Keys
mod Tests
use tallybook.Prelude.{
  ℕ, suc, Bool, true, false, not, ◌||◌, Option, none, some, List, [], ◌∷◌, ◌++◌, if◌then◌else◌,
}
use tallybook.Prelude.Bytes.{Bytes, bytes_eq}
use tallybook.Prelude.Int.{ℤ, pos, ltb_ℤ}
use tallybook.Prelude.Result.{Result, ok, err, ◌>>=◌, ◌>>◌, fail_if, or_fail, map_err}
use tallybook.Prelude.Text.{Unicode, to_upper, trim_space, is_empty, starts_with_slash, parse_int}
use tallybook.Stellar.Xdr.{i128_max}

pub record Rule : Type 0 where
  pub method : Bytes
  pub path_template : Bytes
  pub unit_price : ℤ

-- `scheduleRule`, a rule of the document.
pub record ScheduleRule : Type 0 where
  pub method : Bytes
  pub path_template : Bytes
  pub unit_price : Bytes

pub record Schedule : Type 0 where
  pub rules : List Rule
  pub by_key : List (Bytes × Rule)

pub data RuleError : Type 0 where
  invalid_method invalid_path_template duplicate_rule invalid_unit_price : RuleError
  unit_price_out_of_range : RuleError

pub data ScheduleError : Type 0 where
  bad_json empty_schedule : ScheduleError
  bad_rule : ℕ → RuleError → ScheduleError

unfoldable pub schedule_key : Bytes → Bytes → Bytes
schedule_key method path_template = method ++ (b' ' ∷ path_template)

-- `byKey[key]`
unfoldable pub find_key : Bytes → List (Bytes × Rule) → Option Rule
find_key key [] = none
find_key key ((k, r) ∷ by_key) = if bytes_eq k key then some r else find_key key by_key

has_key : Bytes → List (Bytes × Rule) → Bool
unfolding find_key
has_key key by_key = elim (find_key key by_key) [ none ↦ false | some _ ↦ true ]

abbrev pub key_of : Rule → Bytes
key_of r = schedule_key r.method r.path_template

module _ (u : Unicode) where
  -- One round of the loop over the document's rules, up to the new rule.
  pub parse_rule : List (Bytes × Rule) → ScheduleRule → Result RuleError Rule
  unfolding to_upper trim_space is_empty starts_with_slash parse_int schedule_key has_key
  parse_rule by_key rr = do
    let method = to_upper u (trim_space u rr.method)
    fail_if (is_empty method) invalid_method
    let path = trim_space u rr.path_template
    fail_if (is_empty path || not (starts_with_slash path)) invalid_path_template
    fail_if (has_key (schedule_key method path) by_key) duplicate_rule
    price ← or_fail (parse_int (trim_space u rr.unit_price)) invalid_unit_price
    fail_if (ltb_ℤ price (pos 0)) invalid_unit_price
    fail_if (ltb_ℤ i128_max price) unit_price_out_of_range
    ok (record { method = method; path_template = path; unit_price = price })

  -- The loop, from index `i` on, with the rules and the map so far.
  pub parse_rules : List ScheduleRule → ℕ → Schedule → Result ScheduleError Schedule
  unfolding parse_rule
  parse_rules [] i s = ok s
  parse_rules (rr ∷ doc) i s = elim (parse_rule s.by_key rr) [
    | err e ↦ err (bad_rule i e)
    | ok rule ↦
        parse_rules doc (suc i)
          (record { rules = s.rules ++ (rule ∷ []); by_key = (key_of rule, rule) ∷ s.by_key })
  ]

  parse_document : List ScheduleRule → Result ScheduleError Schedule
  unfolding parse_rules
  parse_document [] = err empty_schedule
  parse_document (rr ∷ doc) = parse_rules (rr ∷ doc) 0 (record { rules = []; by_key = [] })

  pub parse_schedule : (Bytes → Option (List ScheduleRule)) → Bytes → Result ScheduleError Schedule
  unfolding parse_document
  parse_schedule unmarshal raw = do doc ← or_fail (unmarshal raw) bad_json; parse_document doc

  unfoldable pub lookup : Schedule → Bytes → Bytes → Option ℤ
  lookup s method path_template =
      elim (find_key (schedule_key (to_upper u method) path_template) s.by_key) [
        | none ↦ none
        | some rule ↦ some rule.unit_price
      ]

-- `Rules`, a copy of the rules.
pub rules_of : Schedule → List Rule
rules_of s = s.rules

pub schedule_hash : (Bytes → Bytes) → Bytes → Bytes
schedule_hash sha256 raw = sha256 raw
