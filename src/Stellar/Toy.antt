-- ===== src/Stellar/Toy.antt =====
-- A strkey codec for the tests: a text is its raw key behind the letter G of an account, the letter
-- C of a contract, or any other letter.
use tallybook.Prelude.{
  ◌≡◌, ◌||◌, Option, none, some, [], ◌∷◌, arith, ◌==◌, if◌then◌else◌, replicate,
}
use tallybook.Prelude.Bytes.{Bytes}
use tallybook.Stellar.Xdr.{Version, account, contract, other, Strkey, IsCodec}

abbrev pub toy_decode_any : Bytes → Option (Version × Bytes)
toy_decode_any [] = none
toy_decode_any (b ∷ raw) =
    if b == b'G'
    then some (account, raw)
    else if b == b'C'
    then some (contract, raw)
    else some (other b, raw)

abbrev pub toy_encode : Version → Bytes → Option Bytes
toy_encode account raw = some (b'G' ∷ raw)
toy_encode contract raw = some (b'C' ∷ raw)
toy_encode (other b) raw = if b == b'G' || b == b'C' then none else some (b ∷ raw)

abbrev pub toy_strkey : Strkey
toy_strkey = record { decode_any = toy_decode_any; encode = toy_encode }

toy_decode-encode :
    (v : Version) (raw text : Bytes)
    → toy_encode v raw ≡ some text
    → toy_decode_any text ≡ some (v, raw)
toy_decode-encode account raw [] e = cc
toy_decode-encode account raw (b ∷ text) e = ground arith
toy_decode-encode contract raw [] e = cc
toy_decode-encode contract raw (b ∷ text) e = ground arith
toy_decode-encode (other t) raw [] e = ground arith
toy_decode-encode (other t) raw (b ∷ text) e = ground arith

toy_encode-decode :
    (v : Version) (raw text : Bytes)
    → toy_decode_any text ≡ some (v, raw)
    → toy_encode v raw ≡ some text
toy_encode-decode v raw [] e = cc
toy_encode-decode account raw (b ∷ text) e = ground arith
toy_encode-decode contract raw (b ∷ text) e = ground arith
toy_encode-decode (other t) raw (b ∷ text) e = ground arith

pub toy_strkey-IsCodec : IsCodec toy_strkey
toy_strkey-IsCodec = record { decode-encode = toy_decode-encode; encode-decode = toy_encode-decode }

-- An account and a contract.
abbrev pub key : Bytes
key = replicate 32 7

abbrev pub account_text : Bytes
account_text = b'G' ∷ key

abbrev pub contract_text : Bytes
contract_text = b'C' ∷ key
