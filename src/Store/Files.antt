-- ===== src/Store/Files.antt =====
-- internal/store/migrate.go: `ParseMigrations`, and `Migrations` of internal/store/migrations_fs.go.
-- A file system is what `fs.ReadDir` and `fs.ReadFile` answer on it. `sort.Slice` is an insertion
-- sort; no two versions are equal, so every sort gives the same list. An int has 64 bits.
pub mod Names
pub mod Sort
pub mod Parsed
pub mod Complete
pub mod Applied
mod Tests
use tallybook.Prelude.{
  ℕ, ◌^◌, Bool, true, false, ◌&&◌, ◌||◌, Option, none, some, List, [], ◌∷◌, ltb, leb, ◌==◌,
  if◌then◌else◌,
}
use tallybook.Prelude.Bytes.{Bytes, bytes_eq, ascii}
use tallybook.Prelude.Result.{Result, ok, err, ◌>>=◌, or_fail}
use tallybook.Prelude.Text.{parse_nat}

pub record Entry : Type 0 where
  pub name : Bytes
  pub is_dir : Bool

pub record Fs : Type 0 where
  pub read_dir : Option (List Entry)
  pub read_file : Bytes → Option Bytes

pub record Migration : Type 0 where
  pub version : ℕ
  pub name : Bytes
  pub filename : Bytes
  pub sql : Bytes

pub data ParseError : Type 0 where
  open_failed : ParseError
  read_dir_failed : ParseError
  bad_name : Bytes → ParseError
  bad_version : Bytes → ParseError
  used_twice : ℕ → Bytes → Bytes → ParseError
  read_failed : Bytes → ParseError
  no_migrations : ParseError

-- `\d` and `[a-zA-Z0-9_]`
unfoldable pub is_digit : ℕ → Bool
is_digit b = leb b'0' b && leb b b'9'

unfoldable pub is_word : ℕ → Bool
unfolding is_digit
is_word b = is_digit b || (leb b'a' b && leb b b'z') || (leb b'A' b && leb b b'Z') || b == b'_'

-- The longest run of bytes of a class at the front, and what is behind it.
unfoldable pub span : (ℕ → Bool) → Bytes → Bytes × Bytes
span p [] = ([], [])
span p (b ∷ bs) = let (run, rest) = span p bs in if p b then (b ∷ run, rest) else ([], b ∷ bs)

-- The end of a match: `\.sql$` behind a name of at least one byte.
unfoldable pub match_suffix : Bytes → Bytes × Bytes → Option (Bytes × Bytes)
match_suffix digits ([], rest) = none
match_suffix digits (b ∷ name, rest) =
    if bytes_eq rest (ascii ".sql") then some (digits, b ∷ name) else none

-- `migrationFilename.FindStringSubmatch(name)`: `^(\d+)_([a-zA-Z0-9_]+)\.sql$`. Neither class has
-- a byte that may stand behind its run, so the longest runs are the only match.
unfoldable pub match_digits : Bytes × Bytes → Option (Bytes × Bytes)
unfolding match_suffix
match_digits ([], rest) = none
match_digits (d ∷ digits, []) = none
match_digits (d ∷ digits, c ∷ rest) =
    if c == b'_' then match_suffix (d ∷ digits) (span is_word rest) else none

unfoldable pub match_filename : Bytes → Option (Bytes × Bytes)
unfolding match_digits span
match_filename name = match_digits (span is_digit name)

-- `strconv.Atoi` on digits.
unfoldable pub atoi : Bytes → Option ℕ
atoi digits = elim (parse_nat digits) [
  | none ↦ none
  | some v ↦ if ltb v (2 ^ 63) then some v else none
]

-- The map `seen`, from a version to its file.
unfoldable pub prior : ℕ → List (ℕ × Bytes) → Option Bytes
prior v [] = none
prior v ((w, name) ∷ seen) = if w == v then some name else prior v seen

check_unused : ℕ → Bytes → Option Bytes → Result ParseError (Unit {0})
check_unused v name none = ok tt
check_unused v name (some first) = err (used_twice v first name)

-- The body of the loop, for an entry that is not a directory.
unfoldable pub parse_file : Fs → List (ℕ × Bytes) → Bytes → Result ParseError Migration
unfolding check_unused
parse_file fs seen name = do
  (digits, label) ← or_fail (match_filename name) (bad_name name)
  v ← or_fail (atoi digits) (bad_version name)
  u ← check_unused v name (prior v seen)
  sql ← or_fail (fs.read_file name) (read_failed name)
  ok (record { version = v; name = label; filename = name; sql = sql })

unfoldable pub parse_entries :
    Fs → List (ℕ × Bytes) → List Entry → Result ParseError (List Migration)
unfolding parse_file
parse_entries fs seen [] = ok []
parse_entries fs seen (e ∷ entries) =
    if e.is_dir then parse_entries fs seen entries else elim (parse_file fs seen e.name) [
      | err x ↦ err x
      | ok m ↦ elim (parse_entries fs ((m.version, e.name) ∷ seen) entries) [
        | err x ↦ err x
        | ok ms ↦ ok (m ∷ ms)
      ]
    ]

unfoldable pub insert_migration : Migration → List Migration → List Migration
insert_migration m [] = m ∷ []
insert_migration m (n ∷ ms) =
    let rest = insert_migration m ms in if ltb m.version n.version then m ∷ n ∷ ms else n ∷ rest

unfoldable pub sort_migrations : List Migration → List Migration
unfolding insert_migration
sort_migrations [] = []
sort_migrations (m ∷ ms) = insert_migration m (sort_migrations ms)

unfoldable pub sorted_or_none : List Migration → Result ParseError (List Migration)
unfolding sort_migrations
sorted_or_none [] = err no_migrations
sorted_or_none (m ∷ ms) = ok (sort_migrations (m ∷ ms))

unfoldable pub parse_migrations : Fs → Result ParseError (List Migration)
unfolding parse_entries sorted_or_none
parse_migrations fs = do
  entries ← or_fail fs.read_dir read_dir_failed
  ms ← parse_entries fs [] entries
  sorted_or_none ms

-- The embedded files; `none` where their directory cannot be opened.
unfoldable pub migrations : Option Fs → Result ParseError (List Migration)
unfolding parse_migrations
migrations embedded = or_fail embedded open_failed >>= parse_migrations
