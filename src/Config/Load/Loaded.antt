-- ===== src/Config/Load/Loaded.antt =====
-- internal/config/config.go: what a configuration says of the environment it was loaded from.
use tallybook.Config.Values.{Host, Lookup}
use tallybook.Config.Values.Right.{Given}
use tallybook.Config.Values.Texts.{IsUrl, IsStrkeyLike}
use tallybook.Config.Values.Numbers.{IsExposure, IsDuration, IsLedger, IsAddr, IsLevel, IsMargin}
use tallybook.Config.Secrets.Rules.{IsSource, IsOperatorSecret}
use tallybook.Config.Load.{
  Config, env_database_url, env_stellar_rpc_url, env_network_passphrase, env_price_book_id,
  env_statement_registry_id, env_operator_address, env_safety_margin_ledgers, env_max_exposure,
  env_max_exposure_age, env_settler_tick, env_indexer_start_ledger, env_collector_addr,
  env_log_level, database_schemes, rpc_schemes,
}

-- Every field is what its variable says, and each variable is in order.
pub record Loaded (h : Host) (lookup : Lookup) (cfg : Config) : Type 0 where
  pub database_url : Given lookup env_database_url cfg.database_url
  pub database_is_url : IsUrl h cfg.database_url database_schemes
  pub rpc_url : Given lookup env_stellar_rpc_url cfg.stellar_rpc_url
  pub rpc_is_url : IsUrl h cfg.stellar_rpc_url rpc_schemes
  pub passphrase : Given lookup env_network_passphrase cfg.network_passphrase
  pub book : Given lookup env_price_book_id cfg.price_book_id
  pub book_id : IsStrkeyLike cfg.price_book_id b'C'
  pub registry : Given lookup env_statement_registry_id cfg.statement_registry_id
  pub registry_id : IsStrkeyLike cfg.statement_registry_id b'C'
  pub operator : Given lookup env_operator_address cfg.operator_address
  pub operator_id : IsStrkeyLike cfg.operator_address b'G'
  pub source : IsSource lookup cfg.operator_secret_source
  pub secret :
      IsOperatorSecret h lookup cfg.operator_secret_source cfg.operator_secret
        cfg.operator_secret_path
  pub margin : IsMargin lookup env_safety_margin_ledgers cfg.safety_margin_ledgers
  pub exposure : IsExposure lookup env_max_exposure cfg.max_exposure
  pub age : IsDuration lookup env_max_exposure_age h cfg.max_exposure_age
  pub tick : IsDuration lookup env_settler_tick h cfg.settler_tick
  pub ledger : IsLedger lookup env_indexer_start_ledger cfg.indexer_start_ledger
  pub addr : IsAddr lookup env_collector_addr h cfg.collector_addr
  pub level : IsLevel lookup env_log_level h cfg.log_level
