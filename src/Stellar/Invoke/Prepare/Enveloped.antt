-- ===== src/Stellar/Invoke/Prepare/Enveloped.antt =====
-- internal/stellar/invoke.go: the envelope that `invokeAndSubmit` sends.
use tallybook.Prelude.{◌+◌, ◌%◌, ◌^◌, ◌≡◌, refl, some, [], ◌∷◌, Option-cases, inl, inr}
use tallybook.Prelude.Bytes.{Bytes}
use tallybook.Prelude.Int.{ℤ}
use tallybook.Prelude.Result.{ok, Result-cases}
use tallybook.Stellar.Xdr.{to_uint64}
use tallybook.Stellar.Auth.{Signer}
use tallybook.Stellar.Invoke.Node.{Node}
use tallybook.Stellar.Invoke.Decode.{Codecs, Transaction, fee_of, resource_fee}
use tallybook.Stellar.Invoke.Prepare.{
  Plan, data_of, final_transaction, sign_envelope, with_fee, with_data, sign_plan,
}

module _ {D W : Type 0} (codecs : Codecs D) (node : Node W) (passphrase : Bytes) (signer : Signer)
    (p : Plan) where
  -- The envelope holds one transaction: the planned operation from the planned account with its
  -- sequence number, the resources of the last simulation, and the base fee on top of the fee that
  -- it asks for, of which a uint32 keeps the lower bits; and one signature, of that transaction's hash for the network.
  pub record Enveloped (envelope : Bytes) : Type 0 where
    pub raw : Bytes
    pub base64 : codecs.base64_decode p.simulated.transaction_data ≡ some raw
    pub ext : D
    pub resources : codecs.unmarshal_data raw ≡ some ext
    pub min_fee : ℤ
    pub asked : resource_fee codecs p.simulated.min_resource_fee ≡ ok min_fee
    pub tx : Transaction D
    pub source : tx.source ≡ p.source
    pub fee : tx.fee ≡ (to_uint64 min_fee + 100) % 2 ^ 32
    pub seq_num : tx.seq_num ≡ p.seq_num
    pub operations : tx.operations ≡ p.operation ∷ []
    pub data_ext : tx.data_ext ≡ some ext
    pub hash : Bytes
    pub hashed : codecs.hash_transaction tx passphrase ≡ some hash
    pub signature : Bytes
    pub signed : signer.sign_decorated hash ≡ some signature
    pub bytes : Bytes
    pub marshalled : codecs.marshal_envelope tx (signature ∷ []) ≡ some bytes
    pub encoded : codecs.base64_encode bytes ≡ envelope

  with_data-Enveloped :
      (envelope raw : Bytes) (ext : D)
      → codecs.base64_decode p.simulated.transaction_data ≡ some raw
      → codecs.unmarshal_data raw ≡ some ext
      → with_data codecs node passphrase signer p (ok ext) ≡ ok envelope
      → Enveloped envelope
  unfolding with_data with_fee sign_envelope fee_of
  with_data-Enveloped envelope raw ext b r =
      elim (Result-cases (resource_fee codecs p.simulated.min_resource_fee)) [
        | inr (x, f) ↦ rw (f, with_data, with_fee) (λ h. cc)
        | inl (m, f) ↦
            let tx : Transaction D = final_transaction codecs node p ext m in
            elim (Option-cases (codecs.hash_transaction tx passphrase)) [
              | inl g ↦ rw (f, with_data, with_fee, sign_envelope, g) (λ h. cc)
              | inr (hash, g) ↦ elim (Option-cases (signer.sign_decorated hash)) [
                | inl s ↦ rw (f, with_data, with_fee, sign_envelope, g, s) (λ h. cc)
                | inr (sig, s) ↦ elim (Option-cases (codecs.marshal_envelope tx (sig ∷ []))) [
                  | inl t ↦ rw (f, with_data, with_fee, sign_envelope, g, s, t) (λ h. cc)
                  | inr (bs, t) ↦
                      rw (f, with_data, with_fee, sign_envelope, g, s, t)
                        (λ h. record {
                          raw = raw;
                          base64 = b;
                          ext = ext;
                          resources = r;
                          min_fee = m;
                          asked = f;
                          tx = tx;
                          source = refl;
                          fee = refl;
                          seq_num = refl;
                          operations = refl;
                          data_ext = refl;
                          hash = hash;
                          hashed = g;
                          signature = sig;
                          signed = s;
                          bytes = bs;
                          marshalled = t;
                          encoded = cc;
                        })
                ]
              ]
            ]
      ]

  pub sign_plan-Enveloped :
      (envelope : Bytes)
      → sign_plan codecs node passphrase signer p ≡ ok envelope
      → Enveloped envelope
  unfolding sign_plan data_of with_data
  sign_plan-Enveloped envelope =
      elim (Option-cases (codecs.base64_decode p.simulated.transaction_data)) [
        | inl b ↦ rw (b, sign_plan, data_of) (λ h. cc)
        | inr (raw, b) ↦ elim (Option-cases (codecs.unmarshal_data raw)) [
          | inl r ↦ rw (b, sign_plan, data_of, r) (λ h. cc)
          | inr (ext, r) ↦ rw (b, sign_plan, data_of, r) (with_data-Enveloped envelope raw ext b r)
        ]
      ]
