-- ===== src/Stellar/Xdr/Address.antt =====
-- `ScvAddress` and `DecodeAddress` undo one another, over a strkey codec.
use tallybook.Prelude.{◌≡◌, some, arith, length, Option-cases, inl, inr}
use tallybook.Prelude.Bytes.{Bytes}
use tallybook.Prelude.Result.{ok, Result-cases}
use tallybook.Stellar.ScVal.{ScAddress, ScVal}
use tallybook.Stellar.Xdr.{
  Version, Strkey, IsCodec, address_of, sc_address, scv_address, encode_address, decode_address,
}

-- An account or a contract, with a key of 32 bytes.
abbrev pub Has32 : ScAddress → Type 0
Has32 (ScAddress.account raw) = length raw ≡ 32
Has32 (ScAddress.contract raw) = length raw ≡ 32
Has32 (ScAddress.other t) = ⊥

module _ (strkey : Strkey) (codec : IsCodec strkey) where
  encode-address_of :
      (text : Bytes) (v : Version) (raw : Bytes) (a : ScAddress)
      → strkey.decode_any text ≡ some (v, raw)
      → address_of strkey text v raw ≡ ok a
      → encode_address strkey a ≡ ok text
  unfolding address_of encode_address
  encode-address_of text Version.account raw a d e =
      ground (arith, codec.encode-decode Version.account raw text)
  encode-address_of text Version.contract raw a d e =
      ground (arith, codec.encode-decode Version.contract raw text)
  encode-address_of text (Version.other t) raw a d e = ground arith

  encode-sc_address :
      (text : Bytes) (a : ScAddress)
      → sc_address strkey text ≡ ok a
      → encode_address strkey a ≡ ok text
  unfolding sc_address
  encode-sc_address text a e = elim (Option-cases (strkey.decode_any text)) [
    | inl d ↦ ground arith
    | inr ((v, raw), d) ↦ encode-address_of text v raw a d (ground arith)
  ]

  -- The address that `ScvAddress` builds from a text decodes back to that text.
  pub decode_address-scv_address :
      (text : Bytes) (w : ScVal)
      → scv_address strkey text ≡ ok w
      → decode_address strkey w ≡ ok text
  unfolding scv_address decode_address
  decode_address-scv_address text w e = elim (Result-cases (sc_address strkey text)) [
    | inl (a, d) ↦
        let made : ScVal.address a ≡ w = ground arith in rw (← made) (encode-sc_address text a d)
    | inr (x, d) ↦ ground arith
  ]

  -- The text that `DecodeAddress` reads from an account or contract address of 32 bytes is one that
  -- `ScvAddress` turns into the same address.
  pub scv_address-decode_address :
      (a : ScAddress) (text : Bytes)
      → Has32 a
      → decode_address strkey (ScVal.address a) ≡ ok text
      → scv_address strkey text ≡ ok (ScVal.address a)
  unfolding scv_address decode_address encode_address sc_address address_of
  scv_address-decode_address (ScAddress.account raw) text h e =
      ground (arith, codec.decode-encode Version.account raw text)
  scv_address-decode_address (ScAddress.contract raw) text h e =
      ground (arith, codec.decode-encode Version.contract raw text)
  scv_address-decode_address (ScAddress.other t) text h e = absurd h

pub scv_address-IsAddress :
    (strkey : Strkey) (text : Bytes) (w : ScVal)
    → scv_address strkey text ≡ ok w
    → (a : ScAddress) × (w ≡ ScVal.address a)
unfolding scv_address
scv_address-IsAddress strkey text w e = elim (Result-cases (sc_address strkey text)) [
  | inl (a, d) ↦ (a, ground arith)
  | inr (x, d) ↦ ground arith
]
