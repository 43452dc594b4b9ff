-- ===== src/Stellar/Auth.antt =====
-- internal/stellar/invoke.go: authorization entries, `AuthorizeInvocation` and `mergeAuthEntries`.
-- The SDK's encoders, the signer and the hash are the parameter `Sdk`; the bytes of `rand.Read` are
-- an argument, `none` where it fails.
pub mod Merge
pub mod Signed
mod Tests
use tallybook.Prelude.{
  ℕ, ◌+◌, ◌%◌, ◌^◌, Bool, true, false, ◌||◌, Option, none, some, List, [], ◌∷◌, ◌++◌, if◌then◌else◌,
}
use tallybook.Prelude.Bytes.{Bytes, bytes_eq, ascii}
use tallybook.Prelude.Int.{ℤ}
use tallybook.Prelude.Result.{Result, ok, err, ◌>>=◌, or_fail, map_err}
use tallybook.Stellar.ScVal.{ScAddress, ScVal}
use tallybook.Stellar.Xdr.{
  XdrError, Version, Strkey, big_endian, to_int64, sc_address, scv_vec, scv_map, map_entry,
}

-- `xdr.InvokeContractArgs`
pub record ContractCall : Type 0 where
  pub contract : ScAddress
  pub function : Bytes
  pub args : List ScVal

mutual
  -- `xdr.SorobanAuthorizedInvocation`; `other` authorizes a function of another kind.
  pub data Invocation : Type 0 where
    contract_fn : ContractCall → Invocations → Invocation
    other : ℕ → Invocations → Invocation

  -- Its sub-invocations.
  pub data Invocations : Type 0 where
    no_more : Invocations
    more : Invocation → Invocations → Invocations

-- `xdr.SorobanAddressCredentials`
pub record AddressCredentials : Type 0 where
  pub address : ScAddress
  pub nonce : ℤ
  pub expiration_ledger : ℕ
  pub signature : ScVal

-- `xdr.SorobanCredentials`: the pointer behind an address tag may be nil.
pub data Credentials : Type 0 where
  source_account : Credentials
  address : Option AddressCredentials → Credentials
  address_v2 : Option AddressCredentials → Credentials
  other : ℕ → Credentials

pub record AuthEntry : Type 0 where
  pub credentials : Credentials
  pub root : Invocation

-- `xdr.HashIdPreimageSorobanAuthorization`
pub record Preimage : Type 0 where
  pub network_id : Bytes
  pub nonce : ℤ
  pub expiration_ledger : ℕ
  pub invocation : Invocation

pub record Signer : Type 0 where
  pub address : Bytes
  pub sign : Bytes → Option Bytes
  pub sign_decorated : Bytes → Option Bytes

pub record Sdk : Type 0 where
  pub strkey : Strkey
  pub marshal_address : ScAddress → Option Bytes
  pub marshal_preimage : Preimage → Option Bytes
  pub network_id : Bytes → Bytes
  pub sha256 : Bytes → Bytes

pub data AuthError : Type 0 where
  panics : AuthError
  nonce_failed : AuthError
  marshal_preimage_failed : AuthError
  sign_failed : AuthError
  bad_signer : XdrError → AuthError
  decode_signer_failed : AuthError

abbrev pub auth_validity_ledgers : ℕ
auth_validity_ledgers = 100

-- `uint32(currentLedger + authValidityLedgers)`
unfoldable pub expiration_of : ℕ → ℕ
expiration_of current = (current + auth_validity_ledgers) % 2 ^ 32

-- `randomNonce`, from the eight bytes that are read.
unfoldable pub random_nonce : Option Bytes → Option ℤ
unfolding big_endian to_int64
random_nonce none = none
random_nonce (some b) = some (to_int64 (big_endian b))

-- `mustScAddress`
unfoldable pub must_sc_address : Strkey → Bytes → Result AuthError ScAddress
unfolding sc_address
must_sc_address strkey contract_id = map_err (λ x. panics) (sc_address strkey contract_id)

-- The value that the host takes for a signature.
unfoldable pub signature_val : Bytes → Bytes → ScVal
signature_val public_key signature = scv_vec (
    scv_map (
      map_entry (ascii "public_key") (ScVal.bytes public_key)
      ∷ map_entry (ascii "signature") (ScVal.bytes signature)
      ∷ [])
    ∷ [])

module _ (sdk : Sdk) where
  unfoldable pub authorize_invocation :
      Bytes → Signer → Bytes → Bytes → List ScVal → ℕ → Option Bytes → Result AuthError AuthEntry
  unfolding must_sc_address random_nonce expiration_of signature_val
  authorize_invocation passphrase signer contract_id function args current random = do
    contract ← must_sc_address sdk.strkey contract_id
    nonce ← or_fail (random_nonce random) nonce_failed
    preimage_bytes ←
        or_fail
          (sdk.marshal_preimage (record {
            network_id = sdk.network_id passphrase;
            nonce = nonce;
            expiration_ledger = expiration_of current;
            invocation =
                contract_fn (record { contract = contract; function = function; args = args })
                  no_more;
          }))
          marshal_preimage_failed
    signature ← or_fail (signer.sign (sdk.sha256 preimage_bytes)) sign_failed
    signer_addr ← map_err bad_signer (sc_address sdk.strkey signer.address)
    (version, raw_pub) ← or_fail (sdk.strkey.decode_any signer.address) decode_signer_failed
    ok (record {
      credentials = address (
          some (record {
            address = signer_addr;
            nonce = nonce;
            expiration_ledger = expiration_of current;
            signature = signature_val raw_pub signature;
          }));
      root = contract_fn (record { contract = contract; function = function; args = args }) no_more;
    })

  address_key_of : Option AddressCredentials → Option Bytes
  address_key_of none = none
  address_key_of (some creds) = sdk.marshal_address creds.address

  -- `authCredentialsAddressKey`
  unfoldable pub address_key : Credentials → Option Bytes
  unfolding address_key_of
  address_key source_account = none
  address_key (address creds) = address_key_of creds
  address_key (address_v2 creds) = address_key_of creds
  address_key (other t) = none

  -- The map `superseded`: whether an entry has the key.
  unfoldable pub supersedes : List AuthEntry → Bytes → Bool
  unfolding bytes_eq address_key
  supersedes [] key = false
  supersedes (e ∷ extra) key = elim (address_key e.credentials) [
    | none ↦ supersedes extra key
    | some k ↦ bytes_eq k key || supersedes extra key
  ]

  is_superseded : List AuthEntry → Option Bytes → Bool
  unfolding supersedes
  is_superseded extra none = false
  is_superseded extra (some key) = supersedes extra key

  -- The loop over the recorded entries.
  unfoldable pub keep_recorded : List AuthEntry → List AuthEntry → List AuthEntry
  unfolding is_superseded address_key
  keep_recorded extra [] = []
  keep_recorded extra (e ∷ recorded) =
      let kept = keep_recorded extra recorded in
      if is_superseded extra (address_key e.credentials) then kept else e ∷ kept

  unfoldable pub merge_auth_entries : List AuthEntry → List AuthEntry → List AuthEntry
  unfolding keep_recorded
  merge_auth_entries recorded extra = keep_recorded extra recorded ++ extra
