-- ===== src/Config/Values.antt =====
-- internal/config/config.go: `requireString`, `validateURL`, `validateStrkeyLike`, `parseUint32`,
-- `parseLogLevel`, and the variables that `Load` reads with them. An environment is what
-- `os.LookupEnv` answers, `none` for a variable that is not set. What `url.Parse`,
-- `time.ParseDuration`, `net.SplitHostPort` and `os.ReadFile` answer is the parameter `Host`.
pub mod Right
pub mod Texts
pub mod Numbers
use tallybook.Prelude.{
  ℕ, ◌+◌, ◌^◌, Bool, true, false, not, ◌&&◌, ◌||◌, Option, none, some, List, [], ◌∷◌, length, ltb,
  leb, ◌==◌, if◌then◌else◌,
}
use tallybook.Prelude.Bytes.{Bytes, bytes_eq, ascii}
use tallybook.Prelude.Int.{ℤ, pos, leb_ℤ, ltb_ℤ}
use tallybook.Prelude.Result.{Result, ok, err}
use tallybook.Prelude.Text.{Unicode, is_empty, to_lower, parse_nat, parse_int}

pub record Url : Type 0 where
  pub scheme : Bytes
  pub host : Bytes

pub record Host : Type 0 where
  pub url_parse : Bytes → Option Url
  pub parse_duration : Bytes → Option ℤ
  pub split_host_port : Bytes → Option (Bytes × Bytes)
  pub read_file : Bytes → Option Bytes
  pub unicode : Unicode

abbrev pub Lookup : Type 0
Lookup = Bytes → Option Bytes

-- The errors, each with the variable that it names.
pub data ConfigError : Type 0 where
  missing : Bytes → ConfigError
  not_a_url : Bytes → ConfigError
  missing_host : Bytes → ConfigError
  bad_scheme : Bytes → ConfigError
  bad_length : Bytes → ConfigError
  bad_prefix : Bytes → ConfigError
  not_base32 : Bytes → ConfigError
  bad_source : Bytes → ConfigError
  must_not_be_set : Bytes → ConfigError
  unreadable_file : Bytes → ConfigError
  empty_file : Bytes → ConfigError
  not_an_integer : Bytes → ConfigError
  negative : Bytes → ConfigError
  not_a_duration : Bytes → ConfigError
  not_positive : Bytes → ConfigError
  not_a_uint32 : Bytes → ConfigError
  not_host_port : Bytes → ConfigError
  not_a_level : Bytes → ConfigError

pub data Level : Type 0 where
  level_debug level_info level_warn level_error : Level

-- A part of `Load`: the errors it appends, and what it makes of the variable.
abbrev pub Checked : Type 0 → Type 0
Checked A = List ConfigError × A

-- A value that is set to a text that is not empty.
unfoldable pub filled : Option Bytes → Option Bytes
unfolding is_empty
filled none = none
filled (some v) = if is_empty v then none else some v

unfoldable pub require_string : Lookup → Bytes → Result ConfigError Bytes
unfolding filled
require_string lookup name = elim (filled (lookup name)) [
  | none ↦ err (missing name)
  | some v ↦ ok v
]

-- The closure `get`: an error is appended, and the value is then empty.
unfoldable pub get : Lookup → Bytes → Checked Bytes
unfolding require_string
get lookup name = elim (require_string lookup name) [ err e ↦ (e ∷ [], []) | ok v ↦ ([], v) ]

unfoldable pub is_one_of : Bytes → List Bytes → Bool
unfolding bytes_eq
is_one_of x [] = false
is_one_of x (y ∷ ys) = bytes_eq x y || is_one_of x ys

unfoldable pub check_url : Bytes → List Bytes → Option Url → List ConfigError
unfolding is_empty is_one_of
check_url name schemes none = not_a_url name ∷ []
check_url name schemes (some u) =
    if is_empty u.host
    then missing_host name ∷ []
    else if is_one_of u.scheme schemes
    then []
    else bad_scheme name ∷ []

unfoldable pub validate_url : Host → Bytes → Bytes → List Bytes → List ConfigError
unfolding is_empty check_url
validate_url h name value schemes =
    if is_empty value then [] else check_url name schemes (h.url_parse value)

-- "ABCDEFGHIJKLMNOPQRSTUVWXYZ234567"; a rune of more than one byte is not among them.
unfoldable pub is_base32 : ℕ → Bool
is_base32 b = (leb b'A' b && leb b b'Z') || (leb b'2' b && leb b b'7')

unfoldable pub all_base32 : Bytes → Bool
unfolding is_base32
all_base32 [] = true
all_base32 (b ∷ bs) = is_base32 b && all_base32 bs

unfoldable pub starts_with : ℕ → Bytes → Bool
starts_with prefix [] = false
starts_with prefix (b ∷ bs) = b == prefix

unfoldable pub validate_strkey_like : Bytes → Bytes → ℕ → List ConfigError
unfolding is_empty starts_with all_base32
validate_strkey_like name value prefix =
    if is_empty value
    then []
    else if not (length value == 56)
    then bad_length name ∷ []
    else if not (starts_with prefix value)
    then bad_prefix name ∷ []
    else if all_base32 value
    then []
    else not_base32 name ∷ []

-- `strconv.ParseUint(raw, 10, 32)`
unfoldable pub parse_uint32 : Bytes → Option ℕ
unfolding parse_nat
parse_uint32 raw = elim (parse_nat raw) [
  | none ↦ none
  | some v ↦ if ltb v (2 ^ 32) then some v else none
]

unfoldable pub parse_log_level : Unicode → Bytes → Option Level
unfolding to_lower bytes_eq
parse_log_level u raw =
    let level = to_lower u raw in
    if bytes_eq level (ascii "debug")
    then some level_debug
    else if bytes_eq level (ascii "info")
    then some level_info
    else if bytes_eq level (ascii "warn") || bytes_eq level (ascii "warning")
    then some level_warn
    else if bytes_eq level (ascii "error")
    then some level_error
    else none

-- TB_SAFETY_MARGIN_LEDGERS, with its default.
abbrev pub default_safety_margin_ledgers : ℕ
default_safety_margin_ledgers = 1440

unfoldable pub margin_of : Bytes → Option Bytes → Checked ℕ
unfolding parse_uint32
margin_of name none = ([], default_safety_margin_ledgers)
margin_of name (some raw) = elim (parse_uint32 raw) [
  | none ↦ (not_a_uint32 name ∷ [], 0)
  | some v ↦ ([], v)
]

-- A variable that is parsed if `get` finds it. An error leaves the zero value.
unfoldable pub parse_with :
    {A : Type 0} → (Bytes → Result ConfigError A) → A → Checked Bytes → Checked A
parse_with parse zero (errs, []) = (errs, zero)
parse_with parse zero (errs, b ∷ raw) = elim (parse (b ∷ raw)) [
  | err e ↦ (e ∷ errs, zero)
  | ok v ↦ (errs, v)
]

unfoldable pub parse_exposure : Bytes → Bytes → Result ConfigError (Option ℤ)
unfolding parse_int
parse_exposure name raw = elim (parse_int raw) [
  | none ↦ err (not_an_integer name)
  | some v ↦ if ltb_ℤ v (pos 0) then err (negative name) else ok (some v)
]

unfoldable pub parse_positive : Host → Bytes → Bytes → Result ConfigError ℤ
parse_positive h name raw = elim (h.parse_duration raw) [
  | none ↦ err (not_a_duration name)
  | some v ↦ if leb_ℤ v (pos 0) then err (not_positive name) else ok v
]

unfoldable pub parse_ledger : Bytes → Bytes → Result ConfigError ℕ
unfolding parse_uint32
parse_ledger name raw = elim (parse_uint32 raw) [ none ↦ err (not_a_uint32 name) | some v ↦ ok v ]

unfoldable pub parse_addr : Host → Bytes → Bytes → Result ConfigError Bytes
parse_addr h name raw = elim (h.split_host_port raw) [
  | none ↦ err (not_host_port name)
  | some _ ↦ ok raw
]

unfoldable pub parse_level : Host → Bytes → Bytes → Result ConfigError Level
unfolding parse_log_level
parse_level h name raw = elim (parse_log_level h.unicode raw) [
  | none ↦ err (not_a_level name)
  | some l ↦ ok l
]
