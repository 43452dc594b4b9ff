-- ===== src/Meter/Schedule/Tests.antt =====
-- A parsed schedule, and the theorems at it.
use tallybook.Prelude.{◌≡◌, refl, some, List, [], ◌∷◌, arith}
use tallybook.Prelude.Bytes.{Bytes, ascii, bytes_eq}
use tallybook.Prelude.Int.{ℤ, pos}
use tallybook.Prelude.Result.{ok}
use tallybook.Prelude.Text.{Unicode, to_upper, trim_space, parse_int}
use tallybook.Meter.Schedule.{
  Rule, ScheduleRule, Schedule, schedule_key, find_key, parse_rule, parse_rules, parse_document,
  parse_schedule, lookup,
}
use tallybook.Meter.Schedule.Valid.{IsSchedule, ReadsAll, parse_schedule-IsSchedule}
use tallybook.Meter.Schedule.Lookup.{parse_schedule-lookup}
use tallybook.Meter.Schedule.Keys.{HasNoSpace}

abbrev unicode : Unicode
unicode = record { upper_wide = λ s. s; lower_wide = λ s. s; trim_wide = λ s. s }

abbrev document : List ScheduleRule
document =
    record { method = ascii " get"; path_template = ascii "/v"; unit_price = ascii "15" }
    ∷ record { method = ascii "POST"; path_template = ascii "/v"; unit_price = ascii "20" }
    ∷ []

abbrev first_rule : Rule
first_rule = record { method = ascii "GET"; path_template = ascii "/v"; unit_price = pos 15 }

abbrev second_rule : Rule
second_rule = record { method = ascii "POST"; path_template = ascii "/v"; unit_price = pos 20 }

abbrev schedule : Schedule
schedule = record {
  rules = first_rule ∷ second_rule ∷ [];
  by_key = (ascii "POST /v", second_rule) ∷ (ascii "GET /v", first_rule) ∷ [];
}

schedule-parsed : parse_schedule unicode (λ raw. some document) [] ≡ ok schedule
unfolding parse_schedule parse_document parse_rules parse_rule bytes_eq to_upper
schedule-parsed = refl

parse_schedule-IsSchedule_example :
    IsSchedule schedule
    × ((doc : List ScheduleRule) × (some document ≡ some doc) × ReadsAll unicode doc schedule.rules)
parse_schedule-IsSchedule_example =
    parse_schedule-IsSchedule unicode (λ raw. some document) [] schedule schedule-parsed

parse_schedule-lookup_example :
    (price : ℤ) × (parse_int (ascii "15") ≡ some price)
    × (lookup unicode schedule (ascii "Get") (ascii "/v") ≡ some price)
unfolding to_upper trim_space
parse_schedule-lookup_example =
    parse_schedule-lookup unicode (λ raw. some document) [] document schedule 0
      (record { method = ascii " get"; path_template = ascii "/v"; unit_price = ascii "15" })
      (ascii "Get") refl schedule-parsed refl refl

get-found : lookup unicode schedule (ascii "get") (ascii "/v") ≡ some (pos 15)
unfolding lookup to_upper find_key schedule_key bytes_eq
get-found = refl

get_no_space : HasNoSpace (ascii "GET")
get_no_space = (
  λ e. absurd (omega (arith, e)),
  (λ e. absurd (omega (arith, e)), (λ e. absurd (omega (arith, e)), tt)),
)

abbrev toy_hash : Bytes → Bytes
toy_hash bs = 9 ∷ bs
