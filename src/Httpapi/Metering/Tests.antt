-- ===== src/Httpapi/Metering/Tests.antt =====
-- A metered request, and the theorems at it.
use tallybook.Prelude.{ℕ, ◌≡◌, refl, true, some, false, [], ◌∷◌, ◌++◌, replicate, arith}
use tallybook.Prelude.Bytes.{Bytes, ascii, bytes_eq}
use tallybook.Prelude.Int.{pos}
use tallybook.Prelude.Result.{ok}
use tallybook.Prelude.Text.{Unicode, to_upper, is_empty}
use tallybook.Merkle.Leaf.{endpoint_hash}
use tallybook.Meter.Schedule.{Rule, lookup, find_key, schedule_key}
use tallybook.Meter.Pricing.{Catalog, PricedRequest, price, charge, version_at, find_version}
use tallybook.Httpapi.Requests.{
  works, breaks_before, row_of, is_recorded, is_text, text_or_null, insert_row, record_request,
  insert_failed,
}
use tallybook.Httpapi.Metering.{
  RequestInfo, Config, served, refused, not_recorded, validate_info, meter_request, record_metered,
  handle,
}
use tallybook.Httpapi.Metering.Recorded.{request_of, Recorded, handle-Recorded, handle_serves}

abbrev unicode : Unicode
unicode = record { upper_wide = λ s. s; lower_wide = λ s. s; trim_wide = λ s. s }

abbrev toy_hash : Bytes → Bytes
toy_hash bs = replicate 32 9

abbrev rule : Rule
rule = record { method = ascii "GET"; path_template = ascii "/v"; unit_price = pos 15 }

abbrev catalog : Catalog
catalog = record {
  versions =
      record {
        version = 1;
        effective_ledger = 100;
        schedule = some (record { rules = rule ∷ []; by_key = (ascii "GET /v", rule) ∷ [] });
      }
      ∷ [];
}

-- A request is its number of units.
abbrev config : Config ℕ
config = record {
  operator = ascii "GOP";
  method = ascii "get";
  path_template = ascii "/v";
  pricer = some catalog;
  has_ledger = true;
  has_recorder = true;
  unit_count = some (λ r. r);
}

abbrev caller : RequestInfo
caller = record { consumer = ascii "GCO"; protocol = ascii "mpp_session"; channel = ascii "C1" }

abbrev id : Bytes
id = replicate 32 1

abbrev charge_of_4 : PricedRequest
charge_of_4 = record { charged_amount = pos 60; price_version = 1 }

caller-valid : validate_info caller ≡ ok tt
unfolding validate_info bytes_eq is_empty
caller-valid = refl

priced_4 : price unicode catalog 150 (ascii "get") (ascii "/v") 4 ≡ ok charge_of_4
unfolding price charge version_at find_version lookup to_upper find_key schedule_key bytes_eq
priced_4 = refl

handle_serves_example :
    handle unicode toy_hash config catalog (some caller) (some 150) (some id) 4 works [] ≡ (
      row_of (request_of unicode toy_hash config catalog caller 150 id charge_of_4 4) (pos 60) ∷ [],
      served,
    )
unfolding endpoint_hash is_recorded is_text text_or_null
handle_serves_example =
    handle_serves unicode toy_hash config catalog caller 150 id 4 [] charge_of_4 caller-valid
      priced_4 refl refl (omega arith) (omega arith) (omega arith) (omega arith) (omega arith)
      (omega arith) refl refl refl refl refl refl

served_4 :
    (handle unicode toy_hash config catalog (some caller) (some 150) (some id) 4 works []).1
    ≡ served
unfolding endpoint_hash is_recorded is_text text_or_null
served_4 =
    rw
      (handle_serves unicode toy_hash config catalog caller 150 id 4 [] charge_of_4 caller-valid
        priced_4 refl refl (omega arith) (omega arith) (omega arith) (omega arith) (omega arith)
        (omega arith) refl refl refl refl refl refl)
      refl

handle-Recorded_example :
    Recorded unicode toy_hash config catalog
      (some caller)
      (some 150)
      (some id)
      4
      []
      (handle unicode toy_hash config catalog (some caller) (some 150) (some id) 4 works []).0
handle-Recorded_example =
    handle-Recorded unicode toy_hash config catalog (some caller) (some 150) (some id) 4 works []
      served_4

-- A zero byte, and a byte that no UTF-8 has, are no text.
text_test : is_text (ascii "G" ++ (0 ∷ [])) ≡ false
unfolding is_text
text_test = refl

wide_test : is_text (195 ∷ 169 ∷ 226 ∷ 130 ∷ 172 ∷ 240 ∷ 159 ∷ 152 ∷ 128 ∷ []) ≡ true
unfolding is_text
wide_test = refl

surrogate_test : is_text (237 ∷ 160 ∷ 128 ∷ []) ≡ false
unfolding is_text
surrogate_test = refl

broken_4 :
    (handle unicode toy_hash config catalog (some caller) (some 150) (some id) 4 breaks_before []).1
    ≡ refused (not_recorded insert_failed)
unfolding handle record_metered meter_request validate_info bytes_eq is_empty price charge
    version_at find_version lookup to_upper find_key schedule_key record_request insert_row
broken_4 = refl
