-- ===== src/Stellar/Auth/Tests.antt =====
-- internal/stellar/invoke.go: authorization over a toy signer, and a merge for two addresses.
use tallybook.Prelude.{◌≡◌, ◌++◌, refl, Option, none, some, [], ◌∷◌}
use tallybook.Prelude.Bytes.{Bytes, ascii}
use tallybook.Prelude.Int.{pos}
use tallybook.Stellar.ScVal.{ScAddress, ScVal}
use tallybook.Stellar.Toy.{toy_strkey, key, account_text}
use tallybook.Stellar.Auth.{
  AuthEntry, Credentials, Sdk, Signer, contract_fn, no_more, signature_val, merge_auth_entries,
}
use tallybook.Stellar.Auth.Signed.{Signed}

abbrev raw_address : ScAddress → Option Bytes
raw_address (ScAddress.account raw) = some raw
raw_address (ScAddress.contract raw) = some raw
raw_address (ScAddress.other t) = none

abbrev sdk : Sdk
sdk = record {
  strkey = toy_strkey;
  marshal_address = raw_address;
  marshal_preimage = λ p. some p.network_id;
  network_id = λ p. p;
  sha256 = λ b. b;
}

abbrev signer : Signer
signer = record {
  address = account_text;
  sign = λ b. some (b ++ ascii "!");
  sign_decorated = λ b. none;
}

-- An entry for the account with a key, with a signature that tells the entries apart.
abbrev entry : Bytes → ScVal → AuthEntry
entry raw signature = record {
  credentials = Credentials.address (
      some (record {
        address = ScAddress.account raw;
        nonce = pos 1;
        expiration_ledger = 109;
        signature = signature;
      }));
  root =
      contract_fn (record { contract = ScAddress.contract key; function = []; args = [] }) no_more;
}

abbrev by_source : AuthEntry
by_source = record (entry (ascii "A") ScVal.void) { credentials = Credentials.source_account }

merge_test :
    merge_auth_entries sdk
      (entry (ascii "A") ScVal.void ∷ by_source ∷ entry (ascii "B") ScVal.void ∷ [])
      (entry (ascii "B") (ScVal.u32 1) ∷ [])
    ≡ entry (ascii "A") ScVal.void ∷ by_source ∷ entry (ascii "B") (ScVal.u32 1) ∷ []
unfolding merge_auth_entries
merge_test = refl

abbrev authorized : AuthEntry
authorized = record {
  credentials = Credentials.address (
      some (record {
        address = ScAddress.account key;
        nonce = pos 1;
        expiration_ledger = 109;
        signature = signature_val key (ascii "net!");
      }));
  root =
      contract_fn
        (record { contract = ScAddress.contract key; function = ascii "resolve"; args = [] })
        no_more;
}
