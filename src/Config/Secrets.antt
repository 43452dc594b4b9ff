-- ===== src/Config/Secrets.antt =====
-- internal/config/secret.go: the type `Secret`, which every way of printing redacts; and of
-- internal/config/config.go: `readSecretFile` and the part of `Load` that reads the operator's
-- signing key.
pub mod Rules
use tallybook.Prelude.{
  Bool, true, false, ◌||◌, Option, none, some, List, [], ◌∷◌, ◌++◌, if◌then◌else◌,
}
use tallybook.Prelude.Bytes.{Bytes, bytes_eq, ascii}
use tallybook.Prelude.Result.{Result, ok, err}
use tallybook.Prelude.Text.{is_empty, trim_space}
use tallybook.Config.Values.{
  Host, Lookup, ConfigError, Checked, filled, get, missing, bad_source, must_not_be_set,
  unreadable_file, empty_file,
}

pub record Secret : Type 0 where
  pub raw : Bytes

-- `Secret.String` and `Secret.GoString`.
unfoldable pub secret_string : Secret → Bytes
secret_string s = ascii "[REDACTED]"

unfoldable pub secret_go_string : Secret → Bytes
secret_go_string s = ascii "[REDACTED]"

unfoldable pub reveal : Secret → Bytes
reveal s = s.raw

abbrev pub env_operator_secret_source : Bytes
env_operator_secret_source = ascii "TB_OPERATOR_SECRET_SOURCE"

abbrev pub env_operator_secret : Bytes
env_operator_secret = ascii "TB_OPERATOR_SECRET"

abbrev pub env_operator_secret_path : Bytes
env_operator_secret_path = ascii "TB_OPERATOR_SECRET_PATH"

abbrev pub secret_source_env : Bytes
secret_source_env = ascii "env"

abbrev pub secret_source_file : Bytes
secret_source_file = ascii "file"

abbrev pub no_secret : Secret
no_secret = record { raw = [] }

-- The switch on the source that was read.
unfoldable pub check_source : Checked Bytes → Checked Bytes
unfolding bytes_eq is_empty
check_source (errs, source) =
    if bytes_eq source secret_source_env || bytes_eq source secret_source_file
    then (errs, source)
    else if is_empty source
    then (errs, [])
    else (errs ++ (bad_source env_operator_secret_source ∷ []), [])

unfoldable pub trimmed_secret : Bytes → Result ConfigError Secret
unfolding is_empty
trimmed_secret trimmed =
    if is_empty trimmed
    then err (empty_file env_operator_secret_path)
    else ok (record { raw = trimmed })

unfoldable pub read_secret_file : Host → Bytes → Result ConfigError Secret
unfolding trimmed_secret trim_space
read_secret_file h path = elim (h.read_file path) [
  | none ↦ err (unreadable_file env_operator_secret_path)
  | some data' ↦ trimmed_secret (trim_space h.unicode data')
]

-- The variable that the other source reads.
unfoldable pub reject_other : Bytes → Option Bytes → List ConfigError
reject_other name none = []
reject_other name (some _) = must_not_be_set name ∷ []

unfoldable pub secret_from_env : Option Bytes → Checked Secret
secret_from_env none = (missing env_operator_secret ∷ [], no_secret)
secret_from_env (some raw) = ([], record { raw = raw })

unfoldable pub secret_from_file : Host → Option Bytes → Checked (Secret × Secret)
unfolding read_secret_file
secret_from_file h none = (missing env_operator_secret_path ∷ [], (no_secret, no_secret))
secret_from_file h (some path) = elim (read_secret_file h path) [
  | err e ↦ (e ∷ [], (no_secret, record { raw = path }))
  | ok secret ↦ ([], (secret, record { raw = path }))
]

-- The switch that reads the secret and its path; the first argument is the source in the
-- configuration, empty where it was none of the two.
unfoldable pub operator_secret :
    Host → Bytes → Option Bytes → Option Bytes → Checked (Secret × Secret)
unfolding bytes_eq secret_from_env secret_from_file reject_other
operator_secret h source secret path =
    if bytes_eq source secret_source_env
    then (let (errs, s) = secret_from_env secret in
        (errs ++ reject_other env_operator_secret_path path, (s, no_secret)))
    else if bytes_eq source secret_source_file
    then (let (errs, s) = secret_from_file h path in
        (errs ++ reject_other env_operator_secret secret, s))
    else ([], (no_secret, no_secret))
