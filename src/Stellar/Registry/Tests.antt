-- ===== src/Stellar/Registry/Tests.antt =====
-- A statement on the wire, and the theorem at it.
use tallybook.Prelude.{◌≡◌, refl, some, replicate, none}
use tallybook.Prelude.Bytes.{ascii}
use tallybook.Prelude.Int.{pos}
use tallybook.Prelude.Result.{ok}
use tallybook.Stellar.ScVal.{ScVal, ScAddress}
use tallybook.Stellar.Xdr.{scv_address, scv_i128, in_i128, i128_parts}
use tallybook.Stellar.Registry.{
  Statement, scv_optional_address, decode_statement, Dispute, decode_dispute,
}
use tallybook.Stellar.Registry.RoundTrip.{Wire, statement_val, decode_statement-statement_val}
use tallybook.Stellar.Registry.Disputes.{dispute_val, decode_dispute-dispute_val}
use tallybook.Stellar.Toy.{toy_strkey, toy_strkey-IsCodec, key, account_text, contract_text}

abbrev statement : Statement
statement = record {
  operator = account_text;
  consumer = account_text;
  period_start = 10;
  period_end = 20;
  usage_root = replicate 32 1;
  request_count = 3;
  token = contract_text;
  amount_billed = pos 500;
  amount_settled = pos 0;
  price_book_version = 2;
  protocol = ascii "MppSession";
  channel = some contract_text;
  anchored_ledger = 21;
  status = ascii "Anchored";
}

abbrev account_val : ScVal
account_val = ScVal.address (ScAddress.account key)

abbrev contract_val : ScVal
contract_val = ScVal.address (ScAddress.contract key)

statement-Wire : Wire toy_strkey statement
unfolding scv_address scv_optional_address scv_i128 in_i128 i128_parts
statement-Wire = record {
  operator = account_val;
  consumer = account_val;
  token = contract_val;
  channel = contract_val;
  billed = ScVal.i128 (record { hi = pos 0; lo = 500 });
  settled = ScVal.i128 (record { hi = pos 0; lo = 0 });
  operator_eq = refl;
  consumer_eq = refl;
  token_eq = refl;
  channel_eq = refl;
  billed_eq = refl;
  settled_eq = refl;
  usage_root_length = refl;
}

decode_statement-statement_val_example :
    decode_statement toy_strkey (statement_val statement statement-Wire) ≡ ok statement
decode_statement-statement_val_example =
    decode_statement-statement_val toy_strkey toy_strkey-IsCodec statement statement-Wire

account-scv : scv_address toy_strkey account_text ≡ ok account_val
unfolding scv_address
account-scv = refl

five_hundred-scv : scv_i128 (some (pos 500)) ≡ ok (ScVal.i128 (record { hi = pos 0; lo = 500 }))
unfolding scv_i128 in_i128 i128_parts
five_hundred-scv = refl

abbrev dispute : Dispute
dispute = record {
  consumer = account_text;
  reason_hash = replicate 32 1;
  opened_ledger = 30;
  resolution_hash = some (replicate 32 2);
  amount_credited = pos 500;
  resolved_ledger = none;
}

decode_dispute-dispute_val_example :
    decode_dispute toy_strkey
      (dispute_val dispute account_val (ScVal.i128 (record { hi = pos 0; lo = 500 })))
    ≡ ok dispute
decode_dispute-dispute_val_example =
    decode_dispute-dispute_val toy_strkey toy_strkey-IsCodec dispute account_val
      (ScVal.i128 (record { hi = pos 0; lo = 500 })) account-scv five_hundred-scv refl refl
