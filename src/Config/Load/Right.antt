-- ===== src/Config/Load/Right.antt =====
-- internal/config/config.go: `Load` returns a configuration just where every variable is in order.
use tallybook.Prelude.{◌≡◌, ◌↔◌, refl, ap, ◌∙◌, subst, All, none, List, [], ◌∷◌}
use tallybook.Prelude.Int.{pos}
use tallybook.Prelude.Result.{ok}
use tallybook.Config.Values.{
  Host, Lookup, ConfigError, level_info, parse_exposure, parse_positive, parse_ledger, parse_addr,
  parse_level,
}
use tallybook.Config.Values.Right.{Given-of_get, get-Given, Parses-of_parse_with, parse_with-Parses}
use tallybook.Config.Values.Texts.{
  validate_url-IsUrl, IsUrl-validate_url, validate_strkey_like-IsStrkeyLike,
  IsStrkeyLike-validate_strkey_like,
}
use tallybook.Config.Values.Numbers.{
  Parses-IsExposure, IsExposure-Parses, Parses-IsDuration, IsDuration-Parses, Parses-IsLedger,
  IsLedger-Parses, Parses-IsAddr, IsAddr-Parses, Parses-IsLevel, IsLevel-Parses,
  IsMargin-of_margin_of, margin_of-IsMargin,
}
use tallybook.Config.Secrets.Rules.{
  cons_append-nil, IsSource-of_check_source, check_source-IsSource, IsOperatorSecret-of_secrets_of,
  secrets_of-IsOperatorSecret,
}
use tallybook.Config.Load.{
  Config, Parts, env_database_url, env_stellar_rpc_url, env_network_passphrase, env_price_book_id,
  env_statement_registry_id, env_operator_address, env_safety_margin_ledgers, env_max_exposure,
  env_max_exposure_age, env_settler_tick, env_indexer_start_ledger, env_collector_addr,
  env_log_level, database_schemes, rpc_schemes, finish, parts_of, append_all, error_lists,
  config_of, load,
}
use tallybook.Config.Load.Loaded.{Loaded}

finish-ok :
    (errs : List ConfigError) (values cfg : Config)
    → finish errs values ≡ ok cfg
    → (errs ≡ []) × (values ≡ cfg)
unfolding finish
finish-ok [] values cfg h = (refl, cc)
finish-ok (e ∷ errs) values cfg h = cc

append_all-nil : (xss : List (List ConfigError)) → append_all xss ≡ [] → All (λ xs. xs ≡ []) xss
unfolding append_all
append_all-nil [] h = tt
append_all-nil (xs ∷ xss) h =
    let (a, b) = cons_append-nil xs (append_all xss) h in (a, append_all-nil xss b)

nil-append_all : (xss : List (List ConfigError)) → All (λ xs. xs ≡ []) xss → append_all xss ≡ []
unfolding append_all
nil-append_all [] h = refl
nil-append_all (xs ∷ xss) (h, hs) = rw (h, append_all) (nil-append_all xss hs)

-- No part has an error.
abbrev Quiet : Host → Parts → Type 0
Quiet h p = All (λ xs. xs ≡ []) (error_lists h p)

module _ (h : Host) (lookup : Lookup) where
  Quiet-Loaded : Quiet h (parts_of h lookup) → Loaded h lookup (config_of (parts_of h lookup))
  unfolding parts_of config_of error_lists
  Quiet-Loaded q =
      let (database_url, (rpc_url, (passphrase, (book, (registry, (operator, q')))))) = q in
      let (database, (rpc, (operator_id, (book_id, (registry_id, (source, r)))))) = q' in
      let (secrets, (margin, (exposure, (age, (tick, (ledger, (addr, (level, e)))))))) = r in
      let g1 = Given-of_get lookup env_database_url database_url in
      let g2 = Given-of_get lookup env_stellar_rpc_url rpc_url in
      let g4 = Given-of_get lookup env_price_book_id book in
      let g5 = Given-of_get lookup env_statement_registry_id registry in
      let g6 = Given-of_get lookup env_operator_address operator in
      let s = IsSource-of_check_source h lookup source in
      record {
        database_url = g1;
        database_is_url =
            validate_url-IsUrl h env_database_url _ database_schemes g1.not_empty database;
        rpc_url = g2;
        rpc_is_url = validate_url-IsUrl h env_stellar_rpc_url _ rpc_schemes g2.not_empty rpc;
        passphrase = Given-of_get lookup env_network_passphrase passphrase;
        book = g4;
        book_id = validate_strkey_like-IsStrkeyLike env_price_book_id _ b'C' g4.not_empty book_id;
        registry = g5;
        registry_id =
            validate_strkey_like-IsStrkeyLike env_statement_registry_id _ b'C' g5.not_empty
              registry_id;
        operator = g6;
        operator_id =
            validate_strkey_like-IsStrkeyLike env_operator_address _ b'G' g6.not_empty operator_id;
        source = s;
        secret = IsOperatorSecret-of_secrets_of h lookup _ s secrets;
        margin = IsMargin-of_margin_of lookup env_safety_margin_ledgers margin;
        exposure = Parses-IsExposure lookup env_max_exposure _ (
            Parses-of_parse_with lookup env_max_exposure (parse_exposure env_max_exposure) none
              exposure);
        age = Parses-IsDuration lookup env_max_exposure_age h _ (
            Parses-of_parse_with lookup env_max_exposure_age (parse_positive h env_max_exposure_age)
              (pos 0) age);
        tick = Parses-IsDuration lookup env_settler_tick h _ (
            Parses-of_parse_with lookup env_settler_tick (parse_positive h env_settler_tick) (pos 0)
              tick);
        ledger = Parses-IsLedger lookup env_indexer_start_ledger _ (
            Parses-of_parse_with lookup env_indexer_start_ledger
              (parse_ledger env_indexer_start_ledger) 0 ledger);
        addr = Parses-IsAddr lookup env_collector_addr h _ (
            Parses-of_parse_with lookup env_collector_addr (parse_addr h env_collector_addr) []
              addr);
        level = Parses-IsLevel lookup env_log_level h _ (
            Parses-of_parse_with lookup env_log_level (parse_level h env_log_level) level_info
              level);
      }

  load-Loaded : (cfg : Config) → load h lookup ≡ ok cfg → Loaded h lookup cfg
  unfolding load
  load-Loaded cfg k =
      let p = parts_of h lookup in
      let (n, v) = finish-ok (append_all (error_lists h p)) (config_of p) cfg k in
      subst (Loaded h lookup) v (Quiet-Loaded (append_all-nil (error_lists h p) n))

  -- The parts of a configuration that is in order, none of them with an error.
  abbrev parts_for : Config → Parts
  parts_for cfg = record {
    database_url = ([], cfg.database_url);
    rpc_url = ([], cfg.stellar_rpc_url);
    passphrase = ([], cfg.network_passphrase);
    book = ([], cfg.price_book_id);
    registry = ([], cfg.statement_registry_id);
    operator = ([], cfg.operator_address);
    source = ([], cfg.operator_secret_source);
    secrets = ([], (cfg.operator_secret, cfg.operator_secret_path));
    margin = ([], cfg.safety_margin_ledgers);
    exposure = ([], cfg.max_exposure);
    age = ([], cfg.max_exposure_age);
    tick = ([], cfg.settler_tick);
    ledger = ([], cfg.indexer_start_ledger);
    addr = ([], cfg.collector_addr);
    level = ([], cfg.log_level);
  }

  parts_of-Loaded : (cfg : Config) → Loaded h lookup cfg → parts_of h lookup ≡ parts_for cfg
  unfolding parts_of
  parts_of-Loaded cfg l =
      rw
        (
          parts_of,
          check_source-IsSource h lookup cfg.operator_secret_source l.source,
          get-Given lookup env_database_url cfg.database_url l.database_url,
          get-Given lookup env_stellar_rpc_url cfg.stellar_rpc_url l.rpc_url,
          get-Given lookup env_network_passphrase cfg.network_passphrase l.passphrase,
          get-Given lookup env_price_book_id cfg.price_book_id l.book,
          get-Given lookup env_statement_registry_id cfg.statement_registry_id l.registry,
          get-Given lookup env_operator_address cfg.operator_address l.operator,
          secrets_of-IsOperatorSecret h lookup cfg.operator_secret_source cfg.operator_secret
              cfg.operator_secret_path l.secret,
          margin_of-IsMargin lookup env_safety_margin_ledgers cfg.safety_margin_ledgers l.margin,
          parse_with-Parses lookup env_max_exposure (parse_exposure env_max_exposure) none
              cfg.max_exposure
              (IsExposure-Parses lookup env_max_exposure cfg.max_exposure l.exposure),
          parse_with-Parses lookup env_max_exposure_age (parse_positive h env_max_exposure_age)
              (pos 0) cfg.max_exposure_age
              (IsDuration-Parses lookup env_max_exposure_age h cfg.max_exposure_age l.age),
          parse_with-Parses lookup env_settler_tick (parse_positive h env_settler_tick) (pos 0)
              cfg.settler_tick
              (IsDuration-Parses lookup env_settler_tick h cfg.settler_tick l.tick),
          parse_with-Parses lookup env_indexer_start_ledger (parse_ledger env_indexer_start_ledger)
              0 cfg.indexer_start_ledger
              (IsLedger-Parses lookup env_indexer_start_ledger cfg.indexer_start_ledger l.ledger),
          parse_with-Parses lookup env_collector_addr (parse_addr h env_collector_addr) []
              cfg.collector_addr
              (IsAddr-Parses lookup env_collector_addr h cfg.collector_addr l.addr),
          parse_with-Parses lookup env_log_level (parse_level h env_log_level) level_info
              cfg.log_level (IsLevel-Parses lookup env_log_level h cfg.log_level l.level),
        )
        refl

  parts_for-Quiet : (cfg : Config) → Loaded h lookup cfg → Quiet h (parts_for cfg)
  unfolding error_lists
  parts_for-Quiet cfg l =
      let database =
        IsUrl-validate_url h env_database_url cfg.database_url database_schemes
          l.database_url.not_empty l.database_is_url in
      let rpc =
        IsUrl-validate_url h env_stellar_rpc_url cfg.stellar_rpc_url rpc_schemes l.rpc_url.not_empty
          l.rpc_is_url in
      let operator =
        IsStrkeyLike-validate_strkey_like env_operator_address cfg.operator_address b'G'
          l.operator.not_empty l.operator_id in
      let book =
        IsStrkeyLike-validate_strkey_like env_price_book_id cfg.price_book_id b'C' l.book.not_empty
          l.book_id in
      let registry =
        IsStrkeyLike-validate_strkey_like env_statement_registry_id cfg.statement_registry_id b'C'
          l.registry.not_empty l.registry_id in
      (
        refl,
        (
          refl,
          (
            refl,
            (
              refl,
              (
                refl,
                (
                  refl,
                  (
                    database,
                    (
                      rpc,
                      (
                        operator,
                        (
                          book,
                          (
                            registry,
                            (
                              refl,
                              (refl, (refl, (refl, (refl, (refl, (refl, (refl, (refl, tt)))))))),
                            ),
                          ),
                        ),
                      ),
                    ),
                  ),
                ),
              ),
            ),
          ),
        ),
      )

  -- `load` returns a configuration if and only if each variable is set and in order and each field
  -- is what its variable says: URLs with a host and a known scheme, addresses of 56 base32 letters,
  -- an exposure that is not negative, positive durations, ledgers that a uint32 holds, a margin that
  -- has a default, and a secret from the one place that its source names, the other place's variable
  -- not set or set to the empty text.
  pub load_iff : (cfg : Config) → (load h lookup ≡ ok cfg) ↔ Loaded h lookup cfg
  unfolding load config_of finish
  load_iff cfg = (
    load-Loaded cfg,
    λ l.
        ap (λ p. finish (append_all (error_lists h p)) (config_of p)) (parts_of-Loaded cfg l)
        ∙ ap (λ e. finish e cfg)
            (nil-append_all (error_lists h (parts_for cfg)) (parts_for-Quiet cfg l)),
  )
