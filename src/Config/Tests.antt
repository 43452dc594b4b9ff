-- ===== src/Config/Tests.antt =====
-- internal/config/config.go: an environment in order, and others that are not.
use mathlib.Core.List.Memᴰ.{head, tail}
use tallybook.Prelude.{
  ℕ, ◌≡◌, ◌↔◌, refl, Option, none, some, List, [], ◌∷◌, ◌++◌, replicate, if◌then◌else◌,
}
use tallybook.Prelude.Bytes.{Bytes, bytes_eq, ascii}
use tallybook.Prelude.Int.{ℤ, pos, negsuc}
use tallybook.Prelude.Result.{ok, err}
use tallybook.Config.Values.{
  Host, Url, Lookup, filled, level_warn, missing, negative, must_not_be_set,
}
use tallybook.Config.Secrets.{env_operator_secret}
use tallybook.Config.Load.{Config, env_max_exposure, env_network_passphrase, load}
use tallybook.Config.Load.Loaded.{Loaded}
use tallybook.Config.Load.Right.{load_iff}
use tallybook.Config.Load.Missing.{Reports, load-Reports}

-- A host on which a URL with a slash is one of the RPC, and a duration is its length in seconds.
abbrev toy_url : Bytes → Option Url
toy_url value =
    if bytes_eq value (ascii "postgres://db")
    then some (record { scheme = ascii "postgres"; host = ascii "db" })
    else if bytes_eq value (ascii "https://rpc")
    then some (record { scheme = ascii "https"; host = ascii "rpc" })
    else none

abbrev toy_duration : Bytes → Option ℤ
toy_duration value =
    if bytes_eq value (ascii "30s")
    then some (pos 30)
    else if bytes_eq value (ascii "-1s")
    then some (negsuc 0)
    else none

abbrev toy : Host
toy = record {
  url_parse = toy_url;
  parse_duration = toy_duration;
  split_host_port = λ value. if bytes_eq value (ascii ":80") then some ([], ascii "80") else none;
  read_file =
      λ path. if bytes_eq path (ascii "/key") then some (ascii " SKEY" ++ (10 ∷ [])) else none;
  unicode = record { upper_wide = λ s. s; lower_wide = λ s. s; trim_wide = λ s. s };
}

abbrev address : ℕ → Bytes
address prefix = prefix ∷ replicate 55 b'A'

abbrev Vars : Type 0
Vars = List (Bytes × Bytes)

unfoldable get_var : Vars → Lookup
unfolding bytes_eq
get_var [] name = none
get_var ((n, v) ∷ vars) name = if bytes_eq n name then some v else get_var vars name

abbrev common : Vars
common =
    (ascii "TB_DATABASE_URL", ascii "postgres://db")
    ∷ (ascii "TB_STELLAR_RPC_URL", ascii "https://rpc")
    ∷ (ascii "TB_PRICE_BOOK_ID", address b'C')
    ∷ (ascii "TB_STATEMENT_REGISTRY_ID", address b'C')
    ∷ (ascii "TB_OPERATOR_ADDRESS", address b'G')
    ∷ (ascii "TB_MAX_EXPOSURE_AGE", ascii "30s")
    ∷ (ascii "TB_SETTLER_TICK", ascii "30s")
    ∷ (ascii "TB_INDEXER_START_LEDGER", ascii "7")
    ∷ (ascii "TB_COLLECTOR_ADDR", ascii ":80")
    ∷ (ascii "TB_LOG_LEVEL", ascii "Warning")
    ∷ []

abbrev in_order : Vars
in_order =
    (ascii "TB_NETWORK_PASSPHRASE", ascii "test")
    ∷ (ascii "TB_OPERATOR_SECRET_SOURCE", ascii "file")
    ∷ (ascii "TB_OPERATOR_SECRET_PATH", ascii "/key")
    ∷ (ascii "TB_MAX_EXPOSURE", ascii "0")
    ∷ common

abbrev loaded : Config
loaded = record {
  database_url = ascii "postgres://db";
  stellar_rpc_url = ascii "https://rpc";
  network_passphrase = ascii "test";
  price_book_id = address b'C';
  statement_registry_id = address b'C';
  operator_address = address b'G';
  operator_secret_source = ascii "file";
  operator_secret = record { raw = ascii "SKEY" };
  operator_secret_path = record { raw = ascii "/key" };
  safety_margin_ledgers = 1440;
  max_exposure = some (pos 0);
  max_exposure_age = pos 30;
  settler_tick = pos 30;
  indexer_start_ledger = 7;
  collector_addr = ascii ":80";
  log_level = level_warn;
}

in_order_test : load toy (get_var in_order) ≡ ok loaded
unfolding load get_var
in_order_test = refl

-- A secret that was left behind from another source, and an amount below zero.
abbrev stale : Vars
stale =
    (ascii "TB_NETWORK_PASSPHRASE", [])
    ∷ (ascii "TB_OPERATOR_SECRET", ascii "S")
    ∷ (ascii "TB_OPERATOR_SECRET_SOURCE", ascii "file")
    ∷ (ascii "TB_OPERATOR_SECRET_PATH", ascii "/key")
    ∷ (ascii "TB_MAX_EXPOSURE", ascii "-1")
    ∷ common

stale_test :
    load toy (get_var stale)
    ≡ err (record {
      count = 3;
      errors =
          missing env_network_passphrase
          ∷ must_not_be_set env_operator_secret
          ∷ negative env_max_exposure
          ∷ [];
    })
unfolding load get_var
stale_test = refl

load_iff_example : (load toy (get_var in_order) ≡ ok loaded) ↔ Loaded toy (get_var in_order) loaded
load_iff_example = load_iff toy (get_var in_order) loaded

load-Reports_example : Reports (load toy (get_var stale)) (missing env_network_passphrase)
unfolding get_var filled
load-Reports_example =
    load-Reports toy (get_var stale) env_network_passphrase (tail (tail (head refl))) refl
