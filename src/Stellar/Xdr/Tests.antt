-- ===== src/Stellar/Xdr/Tests.antt =====
-- Runs of the encoders and decoders, and the theorems at those runs.
use tallybook.Prelude.{◌≡◌, refl, ◌^◌, ◌-◌, some, List, [], ◌∷◌, arith}
use tallybook.Prelude.Bytes.{Bytes, ascii}
use tallybook.Prelude.Int.{ℤ, negsuc}
use tallybook.Prelude.Result.{ok}
use tallybook.Stellar.ScVal.{ScVal, ScAddress}
use tallybook.Stellar.Xdr.{scv_i128, decode_i128, scv_address, decode_address}
use tallybook.Stellar.Xdr.I128.{decode_i128-scv_i128, scv_i128-decode_i128}
use tallybook.Stellar.Xdr.Address.{decode_address-scv_address}
use tallybook.Stellar.Toy.{toy_strkey, toy_strkey-IsCodec, key, account_text, contract_text}

decode_i128-scv_i128_example :
    (w : ScVal) × (scv_i128 (some (negsuc 4)) ≡ ok w) × (decode_i128 w ≡ ok (negsuc 4))
decode_i128-scv_i128_example = decode_i128-scv_i128 (negsuc 4) (omega arith, omega arith)

scv_i128-decode_i128_example :
    (v : ℤ) × (decode_i128 (ScVal.i128 (record { hi = negsuc 0; lo = 2 ^ 64 - 5 })) ≡ ok v)
    × (scv_i128 (some v) ≡ ok (ScVal.i128 (record { hi = negsuc 0; lo = 2 ^ 64 - 5 })))
scv_i128-decode_i128_example =
    scv_i128-decode_i128 (record { hi = negsuc 0; lo = 2 ^ 64 - 5 })
      (omega arith, omega arith, omega arith)

account-scv : scv_address toy_strkey account_text ≡ ok (ScVal.address (ScAddress.account key))
unfolding scv_address
account-scv = refl

decode_address-scv_address_example :
    decode_address toy_strkey (ScVal.address (ScAddress.account key)) ≡ ok account_text
decode_address-scv_address_example =
    decode_address-scv_address toy_strkey toy_strkey-IsCodec account_text
      (ScVal.address (ScAddress.account key)) account-scv

contract-decoded :
    decode_address toy_strkey (ScVal.address (ScAddress.contract key)) ≡ ok contract_text
unfolding decode_address
contract-decoded = refl

abbrev pairs : List (Bytes × ScVal)
pairs = (ascii "uri", ScVal.u32 1) ∷ (ascii "fee", ScVal.void) ∷ (ascii "uri", ScVal.u32 2) ∷ []
