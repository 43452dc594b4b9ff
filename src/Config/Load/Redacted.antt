-- ===== src/Config/Load/Redacted.antt =====
-- internal/config/config.go: `Config.String`, for logs and messages. How a number, a duration and a
-- level are printed is the parameter `Formats`; a secret is printed by its own `String`.
use tallybook.Prelude.{ℕ, ◌≡◌, refl, Option, none, some, ◌++◌}
use tallybook.Prelude.Bytes.{Bytes, ascii}
use tallybook.Prelude.Int.{ℤ}
use tallybook.Config.Values.{Level}
use tallybook.Config.Secrets.{Secret, secret_string}
use tallybook.Config.Load.{Config}

pub record Formats : Type 0 where
  pub uint32 : ℕ → Bytes
  pub big : Option ℤ → Bytes
  pub duration : ℤ → Bytes
  pub level : Level → Bytes

-- A label and the text behind it.
abbrev entry : Bytes → Bytes → Bytes
entry label text = label ++ text

unfoldable pub config_string : Formats → Option Config → Bytes
unfolding secret_string
config_string f none = ascii "<nil config>"
config_string f (some c) =
    entry (ascii "Config{DatabaseURL:") c.database_url
    ++ entry (ascii " StellarRPCURL:") c.stellar_rpc_url
    ++ entry (ascii " NetworkPassphrase:") c.network_passphrase
    ++ entry (ascii " PriceBookID:") c.price_book_id
    ++ entry (ascii " StatementRegistryID:") c.statement_registry_id
    ++ entry (ascii " OperatorAddress:") c.operator_address
    ++ entry (ascii " OperatorSecretSource:") c.operator_secret_source
    ++ entry (ascii " OperatorSecret:") (secret_string c.operator_secret)
    ++ entry (ascii " OperatorSecretPath:") (secret_string c.operator_secret_path)
    ++ entry (ascii " SafetyMarginLedgers:") (f.uint32 c.safety_margin_ledgers)
    ++ entry (ascii " MaxExposure:") (f.big c.max_exposure)
    ++ entry (ascii " MaxExposureAge:") (f.duration c.max_exposure_age)
    ++ entry (ascii " SettlerTick:") (f.duration c.settler_tick)
    ++ entry (ascii " IndexerStartLedger:") (f.uint32 c.indexer_start_ledger)
    ++ entry (ascii " CollectorAddr:") c.collector_addr
    ++ entry (ascii " LogLevel:") (f.level c.log_level)
    ++ ascii "}"

-- What is printed of a configuration does not depend on its secret and on the secret's path.
pub config_string-redacts :
    (f : Formats) (c : Config) (secret path : Secret)
    → config_string f (some (record c { operator_secret = secret; operator_secret_path = path }))
      ≡ config_string f (some c)
unfolding config_string secret_string
config_string-redacts f c secret path = refl
