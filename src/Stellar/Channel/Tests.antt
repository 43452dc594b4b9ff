-- ===== src/Stellar/Channel/Tests.antt =====
-- A commitment's message over toy formats, and the theorem at it.
use native.Mathlib.Decide.{ℕ_discrete}
use mathlib.Core.Logic.{ite, if_pos, if_neg}
use tallybook.Prelude.{◌≡◌, refl, sym, ◌∙◌, Option, none, some, [], ◌∷◌}
use tallybook.Prelude.Bytes.{Bytes, ascii}
use tallybook.Prelude.Int.{pos}
use tallybook.Prelude.Result.{ok}
use tallybook.Stellar.ScVal.{ScVal, ScAddress}
use tallybook.Stellar.Xdr.{scv_address, scv_i128, in_i128, i128_parts}
use tallybook.Stellar.Channel.{commitment_val, build_commitment}
use tallybook.Stellar.Channel.Commitments.{build_commitment-injective}
use tallybook.Stellar.Toy.{toy_strkey, toy_strkey-IsCodec, key, contract_text}

abbrev network_id : Bytes → Bytes
network_id passphrase = 9 ∷ passphrase

abbrev signed_val : ScVal
signed_val =
    commitment_val (ScVal.i128 (record { hi = pos 0; lo = 500 }))
      (ScVal.address (ScAddress.contract key)) (9 ∷ ascii "test")

signed-discrete : (v : ScVal) → Dec (v ≡ signed_val)
signed-discrete v = let decide : Discrete ScVal = hlevel (ℕ_discrete) in decide v signed_val

-- An encoding of that one value.
one_marshal : ScVal → Option Bytes
one_marshal v = ite (signed-discrete v) (some (1 ∷ [])) none

one_marshal-some : (v : ScVal) (bs : Bytes) → one_marshal v ≡ some bs → v ≡ signed_val
unfolding one_marshal
one_marshal-some v bs e = elim (signed-discrete v) [ no p ↦ cc (rw (if_neg _ p) at e) | yes p ↦ p ]

one_marshal-injective :
    (v w : ScVal) (bs : Bytes) → one_marshal v ≡ some bs → one_marshal w ≡ some bs → v ≡ w
one_marshal-injective v w bs e f = one_marshal-some v bs e ∙ sym (one_marshal-some w bs f)

one_marshal-signed : one_marshal signed_val ≡ some (1 ∷ [])
unfolding one_marshal
one_marshal-signed = if_pos (signed-discrete signed_val) refl _ _

signed-built :
    build_commitment toy_strkey one_marshal network_id contract_text (ascii "test") (some (pos 500))
    ≡ ok (1 ∷ [])
unfolding build_commitment scv_address scv_i128 in_i128 i128_parts
signed-built = rw one_marshal-signed refl

build_commitment-injective_example :
    (pos 500 ≡ pos 500)
    × (contract_text ≡ contract_text)
    × (network_id (ascii "test") ≡ network_id (ascii "test"))
build_commitment-injective_example =
    build_commitment-injective toy_strkey toy_strkey-IsCodec one_marshal one_marshal-injective
      network_id contract_text contract_text (ascii "test") (ascii "test") (pos 500) (pos 500)
      (1 ∷ []) signed-built signed-built
