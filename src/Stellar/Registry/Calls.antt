-- ===== src/Stellar/Registry/Calls.antt =====
-- internal/stellar/registry.go: the calls of the statement_registry contract. What a call of the
-- contract returns is the parameter `call`, `none` where the simulation or the transaction fails;
-- the transaction's hash is left out.
use tallybook.Prelude.{ℕ, Bool, Option, List, [], ◌∷◌, map}
use tallybook.Prelude.Bytes.{Bytes, ascii}
use tallybook.Prelude.Int.{ℤ}
use tallybook.Prelude.Result.{ok, ◌>>=◌, or_fail}
use tallybook.Stellar.ScVal.{ScVal}
use tallybook.Stellar.Xdr.{
  X, XdrError, Strkey, scv_address, scv_vec, decode_bool, decode_u64, decode_vec,
}
use tallybook.Stellar.Registry.{
  Statement, Dispute, anchor_args, resolve_dispute_args, decode_statement, decode_dispute,
}

abbrev decode_seqs : List ScVal → X (List ℕ)
decode_seqs [] = ok []
decode_seqs (v ∷ vs) = do seq ← decode_u64 v; seqs ← decode_seqs vs; ok (seq ∷ seqs)

module _ (strkey : Strkey) (call : Bytes → List ScVal → Option ScVal) where
  abbrev invoke : Bytes → List ScVal → X ScVal
  invoke f args = or_fail (call f args) (XdrError.call_failed f)

  pub anchor :
      Bytes
      → Bytes
      → ℕ
      → ℕ
      → Bytes
      → ℕ
      → Bytes
      → Option ℤ
      → Option ℤ
      → ℕ
      → Bytes
      → Option Bytes
      → X ℕ
  anchor signer consumer period_start period_end usage_root request_count token billed settled
        version protocol channel =
      do
        args ←
            anchor_args strkey signer consumer period_start period_end usage_root request_count
              token billed settled version protocol channel
        result ← invoke (ascii "anchor") args
        decode_u64 result

  pub verify_usage : Bytes → ℕ → Bytes → List Bytes → X Bool
  verify_usage operator seq leaf proof = do
    operator_arg ← scv_address strkey operator
    result ←
        invoke (ascii "verify_usage")
          (operator_arg ∷ ScVal.u64 seq ∷ ScVal.bytes leaf ∷ scv_vec (map ScVal.bytes proof) ∷ [])
    decode_bool result

  pub get_statement : Bytes → ℕ → X Statement
  get_statement operator seq = do
    operator_arg ← scv_address strkey operator
    result ← invoke (ascii "get_statement") (operator_arg ∷ ScVal.u64 seq ∷ [])
    decode_statement strkey result

  pub list_statements : Bytes → Bytes → X (List ℕ)
  list_statements operator consumer = do
    operator_arg ← scv_address strkey operator
    consumer_arg ← scv_address strkey consumer
    result ← invoke (ascii "list_statements") (operator_arg ∷ consumer_arg ∷ [])
    items ← decode_vec result
    decode_seqs items

  pub open_dispute : Bytes → Bytes → ℕ → Bytes → X (Unit {0})
  open_dispute signer operator seq reason_hash = do
    operator_arg ← scv_address strkey operator
    consumer_arg ← scv_address strkey signer
    result ←
        invoke (ascii "open_dispute")
          (operator_arg ∷ ScVal.u64 seq ∷ consumer_arg ∷ ScVal.bytes reason_hash ∷ [])
    ok tt

  pub resolve_dispute : Bytes → ℕ → Bytes → Option ℤ → X (Unit {0})
  resolve_dispute signer seq resolution_hash amount_credited = do
    args ← resolve_dispute_args strkey signer seq resolution_hash amount_credited
    result ← invoke (ascii "resolve_dispute") args
    ok tt

  pub extend_statement_ttl : Bytes → ℕ → ℕ → X (Unit {0})
  extend_statement_ttl signer seq ledgers = do
    operator_arg ← scv_address strkey signer
    result ←
        invoke (ascii "extend_statement_ttl")
          (operator_arg ∷ ScVal.u64 seq ∷ ScVal.u32 ledgers ∷ [])
    ok tt

  pub get_dispute : Bytes → ℕ → X Dispute
  get_dispute operator seq = do
    operator_arg ← scv_address strkey operator
    result ← invoke (ascii "get_dispute") (operator_arg ∷ ScVal.u64 seq ∷ [])
    decode_dispute strkey result
