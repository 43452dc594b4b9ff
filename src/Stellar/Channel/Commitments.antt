-- ===== src/Stellar/Channel/Commitments.antt =====
-- A signed message stands for one commitment.
use tallybook.Prelude.{◌≡◌, Option, some, arith, Option-cases, inl, inr}
use tallybook.Prelude.Bytes.{Bytes}
use tallybook.Prelude.Int.{ℤ}
use tallybook.Prelude.Result.{ok, Result-cases}
use tallybook.Stellar.ScVal.{ScVal}
use tallybook.Stellar.Xdr.{Strkey, IsCodec, scv_address, scv_i128, decode_address, decode_i128}
use tallybook.Stellar.Xdr.Address.{decode_address-scv_address}
use tallybook.Stellar.Xdr.I128.{decode_scv_i128}
use tallybook.Stellar.Channel.{commitment_val, build_commitment}

amount_unique :
    (a b : ℤ) (v w : ScVal) → scv_i128 (some a) ≡ ok v → scv_i128 (some b) ≡ ok w → v ≡ w → a ≡ b
amount_unique a b v w e f s =
    let x : decode_i128 v ≡ ok a = decode_scv_i128 a v e in
    let y : decode_i128 w ≡ ok b = decode_scv_i128 b w f in cc

address_unique :
    (strkey : Strkey) (codec : IsCodec strkey) (a b : Bytes) (v w : ScVal)
    → scv_address strkey a ≡ ok v
    → scv_address strkey b ≡ ok w
    → v ≡ w
    → a ≡ b
address_unique strkey codec a b v w e f s =
    let x : decode_address strkey v ≡ ok a = decode_address-scv_address strkey codec a v e in
    let y : decode_address strkey w ≡ ok b = decode_address-scv_address strkey codec b w f in cc

module _ (strkey : Strkey) (codec : IsCodec strkey) (marshal : ScVal → Option Bytes)
    (marshal_injective : (v w : ScVal) (bs : Bytes)
      → marshal v ≡ some bs
      → marshal w ≡ some bs
      → v ≡ w)
    (network_id : Bytes → Bytes) where
  -- Where a message comes from.
  abbrev Built : Bytes → Bytes → ℤ → Bytes → Type 0
  Built contract passphrase amount message =
      (a : ScVal) × ((c : ScVal) × (scv_i128 (some amount) ≡ ok a)
        × (scv_address strkey contract ≡ ok c)
        × (marshal (commitment_val a c (network_id passphrase)) ≡ some message))

  build_commitment-Built :
      (contract passphrase : Bytes) (amount : ℤ) (message : Bytes)
      → build_commitment strkey marshal network_id contract passphrase (some amount) ≡ ok message
      → Built contract passphrase amount message
  unfolding build_commitment
  build_commitment-Built contract passphrase amount message h =
      elim (Result-cases (scv_i128 (some amount))) [
        | inr (x, e) ↦ ground arith
        | inl (a, e) ↦ elim (Result-cases (scv_address strkey contract)) [
          | inr (x, f) ↦ ground arith
          | inl (c, f) ↦
              elim (Option-cases (marshal (commitment_val a c (network_id passphrase)))) [
                | inl m ↦ ground arith
                | inr (bs, m) ↦ (a, (c, e, f, ground arith))
              ]
        ]
      ]

  -- Over a strkey codec and an injective XDR encoder, two commitments with one message have one
  -- amount, one channel and one network id.
  pub build_commitment-injective :
      (contract contract' passphrase passphrase' : Bytes) (amount amount' : ℤ) (message : Bytes)
      → build_commitment strkey marshal network_id contract passphrase (some amount) ≡ ok message
      → build_commitment strkey marshal network_id contract' passphrase' (some amount') ≡ ok message
      → (amount ≡ amount')
        × (contract ≡ contract')
        × (network_id passphrase ≡ network_id passphrase')
  build_commitment-injective contract contract' passphrase passphrase' amount amount' message h k =
      let (a, (c, ea, ec, em)) = build_commitment-Built contract passphrase amount message h in
      let (b, (d, eb, ed, en)) = build_commitment-Built contract' passphrase' amount' message k in
      let same : commitment_val a c (network_id passphrase)
          ≡ commitment_val b d (network_id passphrase') =
        marshal_injective _ _ message em en in
      (
        amount_unique amount amount' a b ea eb cc,
        address_unique strkey codec contract contract' c d ec ed cc,
        cc,
      )
