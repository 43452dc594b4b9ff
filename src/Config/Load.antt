-- ===== src/Config/Load.antt =====
-- internal/config/config.go: `Load`, which goes through the variables in turn, appends the errors
-- of each and at the end returns all of them, or the configuration; and `Config.String`.
pub mod Loaded
pub mod Right
pub mod Missing
pub mod Redacted
use tallybook.Prelude.{ℕ, Bool, true, false, Option, none, some, List, [], ◌∷◌, ◌++◌, length}
use tallybook.Prelude.Bytes.{Bytes, ascii}
use tallybook.Prelude.Int.{ℤ, pos}
use tallybook.Prelude.Result.{Result, ok, err}
use tallybook.Config.Values.{
  Host, Lookup, ConfigError, Checked, Level, level_info, filled, get, validate_url,
  validate_strkey_like, margin_of, parse_with, parse_exposure, parse_positive, parse_ledger,
  parse_addr, parse_level,
}
use tallybook.Config.Secrets.{
  Secret, secret_string, env_operator_secret_source, env_operator_secret, env_operator_secret_path,
  check_source, operator_secret,
}

pub record Config : Type 0 where
  pub database_url : Bytes
  pub stellar_rpc_url : Bytes
  pub network_passphrase : Bytes
  pub price_book_id : Bytes
  pub statement_registry_id : Bytes
  pub operator_address : Bytes
  pub operator_secret_source : Bytes
  pub operator_secret : Secret
  pub operator_secret_path : Secret
  pub safety_margin_ledgers : ℕ
  pub max_exposure : Option ℤ
  pub max_exposure_age : ℤ
  pub settler_tick : ℤ
  pub indexer_start_ledger : ℕ
  pub collector_addr : Bytes
  pub log_level : Level

abbrev pub env_database_url : Bytes
env_database_url = ascii "TB_DATABASE_URL"

abbrev pub env_stellar_rpc_url : Bytes
env_stellar_rpc_url = ascii "TB_STELLAR_RPC_URL"

abbrev pub env_network_passphrase : Bytes
env_network_passphrase = ascii "TB_NETWORK_PASSPHRASE"

abbrev pub env_price_book_id : Bytes
env_price_book_id = ascii "TB_PRICE_BOOK_ID"

abbrev pub env_statement_registry_id : Bytes
env_statement_registry_id = ascii "TB_STATEMENT_REGISTRY_ID"

abbrev pub env_operator_address : Bytes
env_operator_address = ascii "TB_OPERATOR_ADDRESS"

abbrev pub env_safety_margin_ledgers : Bytes
env_safety_margin_ledgers = ascii "TB_SAFETY_MARGIN_LEDGERS"

abbrev pub env_max_exposure : Bytes
env_max_exposure = ascii "TB_MAX_EXPOSURE"

abbrev pub env_max_exposure_age : Bytes
env_max_exposure_age = ascii "TB_MAX_EXPOSURE_AGE"

abbrev pub env_settler_tick : Bytes
env_settler_tick = ascii "TB_SETTLER_TICK"

abbrev pub env_indexer_start_ledger : Bytes
env_indexer_start_ledger = ascii "TB_INDEXER_START_LEDGER"

abbrev pub env_collector_addr : Bytes
env_collector_addr = ascii "TB_COLLECTOR_ADDR"

abbrev pub env_log_level : Bytes
env_log_level = ascii "TB_LOG_LEVEL"

-- The schemes that the two URLs may have.
abbrev pub database_schemes : List Bytes
database_schemes = ascii "postgres" ∷ ascii "postgresql" ∷ []

abbrev pub rpc_schemes : List Bytes
rpc_schemes = ascii "http" ∷ ascii "https" ∷ []

-- `joinErrors`: the number of errors, and each of them.
pub record LoadError : Type 0 where
  pub count : ℕ
  pub errors : List ConfigError

unfoldable pub join_errors : List ConfigError → LoadError
join_errors errs = record { count = length errs; errors = errs }

-- The end of `Load`.
unfoldable pub finish : List ConfigError → Config → Result LoadError Config
unfolding join_errors
finish [] cfg = ok cfg
finish (e ∷ errs) cfg = err (join_errors (e ∷ errs))

-- What each variable gives, in the order in which they are read.
pub record Parts : Type 0 where
  pub database_url : Checked Bytes
  pub rpc_url : Checked Bytes
  pub passphrase : Checked Bytes
  pub book : Checked Bytes
  pub registry : Checked Bytes
  pub operator : Checked Bytes
  pub source : Checked Bytes
  pub secrets : Checked (Secret × Secret)
  pub margin : Checked ℕ
  pub exposure : Checked (Option ℤ)
  pub age : Checked ℤ
  pub tick : Checked ℤ
  pub ledger : Checked ℕ
  pub addr : Checked Bytes
  pub level : Checked Level

unfoldable pub parts_of : Host → Lookup → Parts
unfolding get filled check_source operator_secret margin_of parse_with parse_exposure parse_positive
    parse_ledger parse_addr parse_level
parts_of h lookup =
    let source = check_source (get lookup env_operator_secret_source) in
    record {
      database_url = get lookup env_database_url;
      rpc_url = get lookup env_stellar_rpc_url;
      passphrase = get lookup env_network_passphrase;
      book = get lookup env_price_book_id;
      registry = get lookup env_statement_registry_id;
      operator = get lookup env_operator_address;
      source = source;
      secrets =
          operator_secret h source.1 (filled (lookup env_operator_secret))
            (filled (lookup env_operator_secret_path));
      margin = margin_of env_safety_margin_ledgers (filled (lookup env_safety_margin_ledgers));
      exposure = parse_with (parse_exposure env_max_exposure) none (get lookup env_max_exposure);
      age =
          parse_with (parse_positive h env_max_exposure_age) (pos 0)
            (get lookup env_max_exposure_age);
      tick = parse_with (parse_positive h env_settler_tick) (pos 0) (get lookup env_settler_tick);
      ledger =
          parse_with (parse_ledger env_indexer_start_ledger) 0
            (get lookup env_indexer_start_ledger);
      addr = parse_with (parse_addr h env_collector_addr) [] (get lookup env_collector_addr);
      level = parse_with (parse_level h env_log_level) level_info (get lookup env_log_level);
    }

-- The errors that are appended one after the other.
unfoldable pub append_all : List (List ConfigError) → List ConfigError
append_all [] = []
append_all (errs ∷ more) = errs ++ append_all more

-- The first six variables are read before they are validated.
unfoldable pub error_lists : Host → Parts → List (List ConfigError)
unfolding validate_url validate_strkey_like
error_lists h p =
    p.database_url.0
    ∷ p.rpc_url.0
    ∷ p.passphrase.0
    ∷ p.book.0
    ∷ p.registry.0
    ∷ p.operator.0
    ∷ validate_url h env_database_url p.database_url.1 database_schemes
    ∷ validate_url h env_stellar_rpc_url p.rpc_url.1 rpc_schemes
    ∷ validate_strkey_like env_operator_address p.operator.1 b'G'
    ∷ validate_strkey_like env_price_book_id p.book.1 b'C'
    ∷ validate_strkey_like env_statement_registry_id p.registry.1 b'C'
    ∷ p.source.0
    ∷ p.secrets.0
    ∷ p.margin.0
    ∷ p.exposure.0
    ∷ p.age.0
    ∷ p.tick.0
    ∷ p.ledger.0
    ∷ p.addr.0
    ∷ p.level.0
    ∷ []

unfoldable pub config_of : Parts → Config
config_of p = record {
  database_url = p.database_url.1;
  stellar_rpc_url = p.rpc_url.1;
  network_passphrase = p.passphrase.1;
  price_book_id = p.book.1;
  statement_registry_id = p.registry.1;
  operator_address = p.operator.1;
  operator_secret_source = p.source.1;
  operator_secret = p.secrets.1.0;
  operator_secret_path = p.secrets.1.1;
  safety_margin_ledgers = p.margin.1;
  max_exposure = p.exposure.1;
  max_exposure_age = p.age.1;
  settler_tick = p.tick.1;
  indexer_start_ledger = p.ledger.1;
  collector_addr = p.addr.1;
  log_level = p.level.1;
}

unfoldable pub load : Host → Lookup → Result LoadError Config
unfolding parts_of append_all error_lists config_of finish
load h lookup = let p = parts_of h lookup in finish (append_all (error_lists h p)) (config_of p)
