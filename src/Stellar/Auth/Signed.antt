-- ===== src/Stellar/Auth/Signed.antt =====
-- internal/stellar/invoke.go: what an entry that `AuthorizeInvocation` builds is signed over.
use tallybook.Prelude.{ℕ, ◌+◌, ◌%◌, ◌^◌, ◌≡◌, Option, some, List}
use tallybook.Prelude.Bytes.{Bytes}
use tallybook.Prelude.Int.{ℤ}
use tallybook.Prelude.Result.{ok}
use tallybook.Stellar.ScVal.{ScAddress, ScVal}
use tallybook.Stellar.Xdr.{Version, sc_address}
use tallybook.Stellar.Auth.{
  AddressCredentials, Credentials, AuthEntry, Preimage, Signer, Sdk, signature_val, contract_fn,
  no_more,
}

-- The entry names the signer's address and the call alone, and its signature is the signer's of the
-- hash of what the entry itself says: its nonce, its last ledger and its invocation, on the network.
pub record Signed (sdk : Sdk) (passphrase : Bytes) (signer : Signer) (contract_id function : Bytes)
    (args : List ScVal) (current : ℕ) (e : AuthEntry) : Type 0 where
  pub creds : AddressCredentials
  pub credentials : e.credentials ≡ Credentials.address (some creds)
  pub contract : ScAddress
  pub called : sc_address sdk.strkey contract_id ≡ ok contract
  pub root :
      e.root
      ≡ contract_fn (record { contract = contract; function = function; args = args }) no_more
  pub address : sc_address sdk.strkey signer.address ≡ ok creds.address
  pub expiration : creds.expiration_ledger ≡ (current + 100) % 2 ^ 32
  pub preimage : Bytes
  pub marshalled :
      sdk.marshal_preimage (record {
        network_id = sdk.network_id passphrase;
        nonce = creds.nonce;
        expiration_ledger = creds.expiration_ledger;
        invocation = e.root;
      })
      ≡ some preimage
  pub signature : Bytes
  pub signed : signer.sign (sdk.sha256 preimage) ≡ some signature
  pub version : Version
  pub public_key : Bytes
  pub decoded : sdk.strkey.decode_any signer.address ≡ some (version, public_key)
  pub value : creds.signature ≡ signature_val public_key signature

module _ (sdk : Sdk) (passphrase : Bytes) (signer : Signer) (contract_id function : Bytes)
    (args : List ScVal) (current : ℕ) (random : Option Bytes) where
  abbrev entry_of : ScAddress → ℤ → ScAddress → Bytes → Bytes → AuthEntry
  entry_of callee nonce addr public_key signature = record {
    credentials = Credentials.address (
        some (record {
          address = addr;
          nonce = nonce;
          expiration_ledger = (current + 100) % 2 ^ 32;
          signature = signature_val public_key signature;
        }));
    root = contract_fn (record { contract = callee; function = function; args = args }) no_more;
  }

  abbrev preimage_of : ScAddress → ℤ → Preimage
  preimage_of callee nonce = record {
    network_id = sdk.network_id passphrase;
    nonce = nonce;
    expiration_ledger = (current + 100) % 2 ^ 32;
    invocation =
        contract_fn (record { contract = callee; function = function; args = args }) no_more;
  }
