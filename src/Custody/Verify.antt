-- ===== src/Custody/Verify.antt =====
-- internal/custody/verify.go. The channel's `PrepareCommitment` is the parameter `prepare`, `none`
-- where the simulation fails, and `ed25519.Verify` of the standard library is `signed`.
use tallybook.Prelude.{
  ℕ, ◌≡◌, Bool, not, Option, none, some, arith, length, ◌==◌, Option-cases, inl, inr,
}
use tallybook.Prelude.Bytes.{Bytes}
use tallybook.Prelude.Int.{ℤ, pos, leb_ℤ, ◌≤ℤ◌}
use tallybook.Prelude.Result.{Result, ok, err, ◌>>=◌, ◌>>◌, fail_if, or_fail}

pub data VerifyError : Type 0 where
  nil_amount : VerifyError
  non_positive_amount : ℤ → VerifyError
  invalid_signer_key : ℕ → VerifyError
  prepare_failed : VerifyError

module _ (prepare : ℤ → Option Bytes) (signed : Bytes → Bytes → Bytes → Bool) where
  check_signature : Bytes → ℤ → Bytes → Result VerifyError Bool
  check_signature trusted_signer_key amount signature = do
    fail_if (leb_ℤ amount (pos 0)) (non_positive_amount amount)
    fail_if (not (length trusted_signer_key == 32)) (invalid_signer_key (length trusted_signer_key))
    message ← or_fail (prepare amount) prepare_failed
    ok (signed trusted_signer_key message signature)

  unfoldable pub verify_commitment : Bytes → Option ℤ → Bytes → Result VerifyError Bool
  unfolding check_signature
  verify_commitment trusted_signer_key none signature = err nil_amount
  verify_commitment trusted_signer_key (some amount) signature =
      check_signature trusted_signer_key amount signature

  -- What a completed verification has seen: a positive amount, a key of 32 bytes and the message
  -- that the channel prepares for the amount; its verdict is that of the signature on the message.
  pub record Verified (key : Bytes) (amount : ℤ) (signature : Bytes) (valid : Bool) : Type 0 where
    pub positive : pos 1 ≤ℤ amount
    pub key_length : length key ≡ 32
    pub message : Bytes
    pub prepared : prepare amount ≡ some message
    pub verdict : signed key message signature ≡ valid

  -- A verification completes exactly in that way, with a verdict and never by an error.
  pub verify_commitment-Verified :
      (key : Bytes) (amount : ℤ) (signature : Bytes) (valid : Bool)
      → verify_commitment key (some amount) signature ≡ ok valid
      → Verified key amount signature valid
  unfolding verify_commitment
  verify_commitment-Verified key amount signature valid e = elim (Option-cases (prepare amount)) [
    | inl missing ↦ ground arith
    | inr (message, p) ↦ record {
      positive = ground arith;
      key_length = ground arith;
      message = message;
      prepared = p;
      verdict = ground arith;
    }
  ]

  pub verify_commitment-of_Verified :
      (key : Bytes) (amount : ℤ) (signature : Bytes) (valid : Bool)
      → Verified key amount signature valid
      → verify_commitment key (some amount) signature ≡ ok valid
  unfolding verify_commitment
  verify_commitment-of_Verified key amount signature valid h = ground arith
