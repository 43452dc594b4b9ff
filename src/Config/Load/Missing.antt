-- ===== src/Config/Load/Missing.antt =====
-- internal/config/config.go: a required variable that is not set is named among the errors.
use mathlib.Core.List.{Memᴰ}
use mathlib.Core.List.Memᴰ.{head, tail, append_left, append_right}
use tallybook.Prelude.{
  ℕ, zero, suc, ◌≡◌, refl, sym, ap, subst, none, some, List, [], ◌∷◌, All, get_elem?,
}
use tallybook.Prelude.Bytes.{Bytes}
use tallybook.Prelude.Int.{pos}
use tallybook.Prelude.Result.{Result, err}
use tallybook.Config.Values.{
  Host, Lookup, ConfigError, Checked, missing, level_info, get, parse_with, parse_exposure,
  parse_positive, parse_ledger, parse_addr, parse_level,
}
use tallybook.Config.Values.Right.{NotGiven, get-none}
use tallybook.Config.Secrets.{env_operator_secret_source, check_source}
use tallybook.Config.Load.{
  Config, LoadError, env_database_url, env_stellar_rpc_url, env_network_passphrase,
  env_price_book_id, env_statement_registry_id, env_operator_address, env_max_exposure,
  env_max_exposure_age, env_settler_tick, env_indexer_start_ledger, env_collector_addr,
  env_log_level, finish, parts_of, append_all, error_lists, config_of, join_errors, load,
}

-- The variables that `Load` reads with `get`.
abbrev pub required : List Bytes
required =
    env_database_url ∷ env_stellar_rpc_url ∷ env_network_passphrase ∷ env_price_book_id
    ∷ env_statement_registry_id ∷ env_operator_address ∷ env_operator_secret_source
    ∷ env_max_exposure ∷ env_max_exposure_age ∷ env_settler_tick ∷ env_indexer_start_ledger
    ∷ env_collector_addr ∷ env_log_level ∷ []

-- An error of one list is among all of them.
append_all-Mem :
    (xss : List (List ConfigError)) (i : ℕ) (xs : List ConfigError) (x : ConfigError)
    → get_elem? xss i ≡ some xs
    → Memᴰ x xs
    → Memᴰ x (append_all xss)
unfolding append_all
append_all-Mem [] i xs x e m = cc
append_all-Mem (ys ∷ xss) zero xs x e m =
    let k : ys ≡ xs = cc in append_left (append_all xss) (rw k m)
append_all-Mem (ys ∷ xss) (suc i) xs x e m = append_right ys (append_all-Mem xss i xs x e m)

All-Mem : {A : Type 0} (P : A → Type 0) (xs : List A) (x : A) → All P xs → Memᴰ x xs → P x
All-Mem P [] x h m = elim m [ ]
All-Mem P (y ∷ xs) x h (head e) = subst P (sym e) h.0
All-Mem P (y ∷ xs) x h (tail m) = All-Mem P xs x h.1 m

-- An outcome of `load` that has an error among its errors.
abbrev pub Reports : Result LoadError Config → ConfigError → Type 0
Reports r x = (e : LoadError) × (r ≡ err e) × Memᴰ x e.errors

finish-Reports :
    (errs : List ConfigError) (cfg : Config) (x : ConfigError)
    → Memᴰ x errs
    → Reports (finish errs cfg) x
unfolding finish join_errors
finish-Reports [] cfg x m = elim m [ ]
finish-Reports (e ∷ errs) cfg x m = (join_errors (e ∷ errs), refl, m)

module _ (h : Host) (lookup : Lookup) where
  abbrev Named : Bytes → Type 0
  Named name =
      NotGiven lookup name → Memᴰ (missing name) (append_all (error_lists h (parts_of h lookup)))

  -- The errors of a variable that is not given, in its place.
  named :
      (i : ℕ) (name : Bytes) (xs : List ConfigError)
      → get_elem? (error_lists h (parts_of h lookup)) i ≡ some xs
      → (NotGiven lookup name → xs ≡ missing name ∷ [])
      → Named name
  named i name xs e f n =
      append_all-Mem (error_lists h (parts_of h lookup)) i xs (missing name) e
        (rw (f n) (head refl))

  got : (name : Bytes) → NotGiven lookup name → (get lookup name).0 ≡ missing name ∷ []
  got name n = ap (λ (p : Checked Bytes). p.0) (get-none lookup name n)

  parsed :
      {A : Type 0} (name : Bytes) (parse : Bytes → Result ConfigError A) (d : A)
      → NotGiven lookup name
      → (parse_with parse d (get lookup name)).0 ≡ missing name ∷ []
  unfolding parse_with
  parsed name parse d n =
      ap (λ (p : Checked Bytes). (parse_with parse d p).0) (get-none lookup name n)

  sourced :
      NotGiven lookup env_operator_secret_source
      → (check_source (get lookup env_operator_secret_source)).0
        ≡ missing env_operator_secret_source ∷ []
  unfolding check_source
  sourced n = rw (get-none lookup env_operator_secret_source n, check_source) refl

  all-Named : All Named required
  unfolding error_lists parts_of
  all-Named = (
    named 0 env_database_url _ refl (got _),
    (
      named 1 env_stellar_rpc_url _ refl (got _),
      (
        named 2 env_network_passphrase _ refl (got _),
        (
          named 3 env_price_book_id _ refl (got _),
          (
            named 4 env_statement_registry_id _ refl (got _),
            (
              named 5 env_operator_address _ refl (got _),
              (
                named 11 env_operator_secret_source _ refl sourced,
                (
                  named 14 env_max_exposure _ refl
                      (parsed env_max_exposure (parse_exposure env_max_exposure) none),
                  (
                    named 15 env_max_exposure_age _ refl (
                        parsed env_max_exposure_age (parse_positive h env_max_exposure_age)
                          (pos 0)),
                    (
                      named 16 env_settler_tick _ refl
                          (parsed env_settler_tick (parse_positive h env_settler_tick) (pos 0)),
                      (
                        named 17 env_indexer_start_ledger _ refl (
                            parsed env_indexer_start_ledger (parse_ledger env_indexer_start_ledger)
                              0),
                        (
                          named 18 env_collector_addr _ refl
                              (parsed env_collector_addr (parse_addr h env_collector_addr) []),
                          (
                            named 19 env_log_level _ refl
                                (parsed env_log_level (parse_level h env_log_level) level_info),
                            tt,
                          ),
                        ),
                      ),
                    ),
                  ),
                ),
              ),
            ),
          ),
        ),
      ),
    ),
  )

  -- A required variable that is not set, or set to the empty text, makes `load` fail, and is named
  -- as missing among the errors, whatever else is wrong.
  pub load-Reports :
      (name : Bytes)
      → Memᴰ name required
      → NotGiven lookup name
      → Reports (load h lookup) (missing name)
  unfolding load
  load-Reports name m n =
      finish-Reports (append_all (error_lists h (parts_of h lookup)))
        (config_of (parts_of h lookup)) (missing name) (All-Mem Named required name all-Named m n)
