-- ===== src/Stellar/PriceBook/Tests.antt =====
-- A price book version on the wire, and the theorem at it.
use tallybook.Prelude.{◌≡◌, refl, replicate}
use tallybook.Prelude.Bytes.{ascii}
use tallybook.Prelude.Result.{ok}
use tallybook.Stellar.ScVal.{ScVal, ScAddress}
use tallybook.Stellar.Xdr.{scv_address}
use tallybook.Stellar.PriceBook.{PriceBookVersion, decode_price_book_version}
use tallybook.Stellar.PriceBook.RoundTrip.{version_val, decode_price_book_version-version_val}
use tallybook.Stellar.Toy.{toy_strkey, toy_strkey-IsCodec, key, account_text}

abbrev book_version : PriceBookVersion
book_version = record {
  operator = account_text;
  version = 3;
  schedule_hash = replicate 32 1;
  uri = ascii "https://a";
  effective_ledger = 30;
  published_ledger = 20;
}

operator-scv : scv_address toy_strkey account_text ≡ ok (ScVal.address (ScAddress.account key))
unfolding scv_address
operator-scv = refl

version_test :
    decode_price_book_version toy_strkey
      (version_val book_version (ScVal.address (ScAddress.account key)))
    ≡ ok book_version
version_test =
    decode_price_book_version-version_val toy_strkey toy_strkey-IsCodec book_version
      (ScVal.address (ScAddress.account key)) operator-scv refl
