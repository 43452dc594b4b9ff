-- ===== src/Store/Files/Parsed.antt =====
-- internal/store/migrate.go: what a list of migrations that `ParseMigrations` returns says of the
-- directory.
use mathlib.Core.List.{Perm}
use tallybook.Prelude.{
  ℕ, ◌≡◌, ◌≢◌, refl, sym, ap, ◌∙◌, true, false, none, some, List, [], ◌∷◌, All, All-imp, arith,
  Bool-cases, Option-cases, inl, inr,
}
use tallybook.Prelude.Bytes.{Bytes}
use tallybook.Prelude.Result.{ok, err, Result-cases}
use tallybook.Store.Files.{
  Entry, Fs, Migration, ParseError, atoi, match_filename, prior, check_unused, parse_file,
  parse_entries, sort_migrations, sorted_or_none, parse_migrations,
}
use tallybook.Store.Files.Names.{IsFilename, match_filename_iff}
use tallybook.Store.Files.Sort.{
  IsAscending, IsDistinct, filenames, All-sort_migrations, sort_migrations-Perm,
  sort_migrations-IsAscending,
}

-- The names of the entries that are not directories.
unfoldable pub files : List Entry → List Bytes
files [] = []
files (e ∷ entries) = elim e.is_dir [ true ↦ files entries | false ↦ e.name ∷ files entries ]

-- A migration is what its file name and its file say.
pub record IsRead (fs : Fs) (m : Migration) : Type 0 where
  pub digits : Bytes
  pub named : IsFilename m.filename digits m.name
  pub version : atoi digits ≡ some m.version
  pub contents : fs.read_file m.filename ≡ some m.sql

-- The migrations of a directory, in the order of its entries.
pub record Reads (fs : Fs) (entries : List Entry) (ms : List Migration) : Type 0 where
  pub listed : filenames ms ≡ files entries
  pub each : All (IsRead fs) ms
  pub distinct : IsDistinct ms

abbrev pub Unused : List (ℕ × Bytes) → List Migration → Type 0
Unused seen ms = All (λ m. prior m.version seen ≡ none) ms

prior-cons :
    (v w : ℕ) (name : Bytes) (seen : List (ℕ × Bytes))
    → prior v ((w, name) ∷ seen) ≡ none
    → (v ≢ w) × (prior v seen ≡ none)
unfolding prior
prior-cons v w name seen h = ground arith

-- A file that is read, by the steps that it takes.
pub record ReadAs (fs : Fs) (seen : List (ℕ × Bytes)) (name : Bytes) (m : Migration) : Type 0 where
  pub is_read : IsRead fs m
  pub filename : m.filename ≡ name
  pub unused : prior m.version seen ≡ none

parse_file-ReadAs :
    (fs : Fs) (seen : List (ℕ × Bytes)) (name : Bytes) (m : Migration)
    → parse_file fs seen name ≡ ok m
    → ReadAs fs seen name m
unfolding parse_file check_unused
parse_file-ReadAs fs seen name m = elim (Option-cases (match_filename name)) [
  | inl e ↦ rw (e, parse_file) (λ h. cc)
  | inr ((digits, label), e) ↦ elim (Option-cases (atoi digits)) [
    | inl f ↦ rw (e, parse_file, f) (λ h. cc)
    | inr (v, f) ↦ elim (Option-cases (prior v seen)) [
      | inr (first, g) ↦ rw (e, parse_file, f, g, check_unused) (λ h. cc)
      | inl g ↦ elim (Option-cases (fs.read_file name)) [
        | inl k ↦ rw (e, parse_file, f, g, check_unused, k) (λ h. cc)
        | inr (sql, k) ↦
            let made : Migration = record {
              version = v;
              name = label;
              filename = name;
              sql = sql;
            } in
            let r : ReadAs fs seen name made = record {
              is_read = record {
                digits = digits;
                named = (match_filename_iff name digits label).0 e;
                version = f;
                contents = k;
              };
              filename = refl;
              unused = g;
            } in
            rw (e, parse_file, f, g, check_unused, k)
              (λ (h : ok made ≡ ok m). let s : made ≡ m = cc in rw (sym s) r)
      ]
    ]
  ]
]

pub files-dir :
    (e : Entry) (entries : List Entry) → e.is_dir ≡ true → files (e ∷ entries) ≡ files entries
unfolding files
files-dir e entries h = rw (files, h) refl

pub files-file :
    (e : Entry) (entries : List Entry)
    → e.is_dir ≡ false
    → files (e ∷ entries) ≡ e.name ∷ files entries
unfolding files
files-file e entries h = rw (files, h) refl

-- A file in front of the others, whose versions were looked up with its own among the seen ones.
Reads-cons :
    (fs : Fs) (seen : List (ℕ × Bytes)) (e : Entry) (entries : List Entry) (m : Migration)
    (ms : List Migration)
    → e.is_dir ≡ false
    → ReadAs fs seen e.name m
    → Reads fs entries ms × Unused ((m.version, e.name) ∷ seen) ms
    → Reads fs (e ∷ entries) (m ∷ ms) × Unused seen (m ∷ ms)
unfolding files
Reads-cons fs seen e entries m ms d r (h, u) = (
  record {
    listed = rw (files-file e entries d, sym r.filename) (ap (λ x. m.filename ∷ x) h.listed);
    each = (r.is_read, h.each);
    distinct =
        (All-imp _ _ ms (λ x q. (prior-cons x.version m.version e.name seen q).0) u, h.distinct);
  },
  (r.unused, All-imp _ _ ms (λ x q. (prior-cons x.version m.version e.name seen q).1) u),
)

Reads-dir :
    (fs : Fs) (e : Entry) (entries : List Entry) (ms : List Migration)
    → e.is_dir ≡ true
    → Reads fs entries ms
    → Reads fs (e ∷ entries) ms
Reads-dir fs e entries ms d h = record {
  listed = rw (files-dir e entries d) h.listed;
  each = h.each;
  distinct = h.distinct;
}

-- The loop on its first entry, by what becomes of the entry.
module _ (fs : Fs) (seen : List (ℕ × Bytes)) (e : Entry) (entries : List Entry) where
  pub parse_entries-dir :
      e.is_dir ≡ true → parse_entries fs seen (e ∷ entries) ≡ parse_entries fs seen entries
  unfolding parse_entries
  parse_entries-dir d = ground arith

  parse_entries-err :
      (x : ParseError)
      → e.is_dir ≡ false
      → parse_file fs seen e.name ≡ err x
      → parse_entries fs seen (e ∷ entries) ≡ err x
  unfolding parse_entries
  parse_entries-err x d f = ground arith

  parse_entries-later :
      (m : Migration) (x : ParseError)
      → e.is_dir ≡ false
      → parse_file fs seen e.name ≡ ok m
      → parse_entries fs ((m.version, e.name) ∷ seen) entries ≡ err x
      → parse_entries fs seen (e ∷ entries) ≡ err x
  unfolding parse_entries
  parse_entries-later m x d f g = ground arith

  pub parse_entries-cons :
      (m : Migration) (ms : List Migration)
      → e.is_dir ≡ false
      → parse_file fs seen e.name ≡ ok m
      → parse_entries fs ((m.version, e.name) ∷ seen) entries ≡ ok ms
      → parse_entries fs seen (e ∷ entries) ≡ ok (m ∷ ms)
  unfolding parse_entries
  parse_entries-cons m ms d f g = ground arith

pub parse_entries-Reads :
    (fs : Fs) (seen : List (ℕ × Bytes)) (entries : List Entry) (ms : List Migration)
    → parse_entries fs seen entries ≡ ok ms
    → Reads fs entries ms × Unused seen ms
unfolding parse_entries files
parse_entries-Reads fs seen [] [] h = (record { listed = refl; each = tt; distinct = tt }, tt)
parse_entries-Reads fs seen [] (m ∷ ms) h = cc
parse_entries-Reads fs seen (e ∷ entries) ms h = elim (Bool-cases e.is_dir) [
  | inl d ↦
      let (r, u) =
        parse_entries-Reads fs seen entries ms (sym (parse_entries-dir fs seen e entries d) ∙ h) in
      (Reads-dir fs e entries ms d r, u)
  | inr d ↦ elim (Result-cases (parse_file fs seen e.name)) [
    | inr (x, f) ↦ let k = parse_entries-err fs seen e entries x d f in cc
    | inl (m, f) ↦ elim (Result-cases (parse_entries fs ((m.version, e.name) ∷ seen) entries)) [
      | inr (x, g) ↦ let k = parse_entries-later fs seen e entries m x d f g in cc
      | inl (rest, g) ↦
          let k = parse_entries-cons fs seen e entries m rest d f g in
          let s : (m ∷ rest) ≡ ms = cc in
          rw (sym s) (
            Reads-cons fs seen e entries m rest d (parse_file-ReadAs fs seen e.name m f)
              (parse_entries-Reads fs ((m.version, e.name) ∷ seen) entries rest g))
    ]
  ]
]

-- What a list of migrations says: they are the files of the directory, each with the version and
-- the label of its name and with its contents, in strictly ascending order.
pub record Parsed (fs : Fs) (ms : List Migration) : Type 0 where
  pub entries : List Entry
  pub listed : fs.read_dir ≡ some entries
  pub ascending : IsAscending ms
  pub complete : Perm (filenames ms) (files entries)
  pub each : All (IsRead fs) ms

sorted_or_none-eq : (us ms : List Migration) → sorted_or_none us ≡ ok ms → sort_migrations us ≡ ms
unfolding sorted_or_none
sorted_or_none-eq [] ms h = cc
sorted_or_none-eq (u ∷ us) ms h = cc

-- `parse_migrations` on a directory whose entries are read.
pub parse_migrations-eq :
    (fs : Fs) (entries : List Entry) (us : List Migration)
    → fs.read_dir ≡ some entries
    → parse_entries fs [] entries ≡ ok us
    → parse_migrations fs ≡ sorted_or_none us
unfolding parse_migrations
parse_migrations-eq fs entries us e f = ground arith

-- The migrations that `parse_migrations` returns are exactly the files of the directory that are
-- not directories, each with the version and the label that its name spells and with its contents,
-- in strictly ascending order of their versions.
pub parse_migrations-Parsed :
    (fs : Fs) (ms : List Migration) → parse_migrations fs ≡ ok ms → Parsed fs ms
unfolding parse_migrations
parse_migrations-Parsed fs ms h = elim (Option-cases fs.read_dir) [
  | inl e ↦ ground arith
  | inr (entries, e) ↦ elim (Result-cases (parse_entries fs [] entries)) [
    | inr (x, f) ↦ ground arith
    | inl (us, f) ↦
        let r = (parse_entries-Reads fs [] entries us f).0 in
        rw (sym (sorted_or_none-eq us ms (sym (parse_migrations-eq fs entries us e f) ∙ h)))
          (record {
            entries = entries;
            listed = e;
            ascending = sort_migrations-IsAscending us r.distinct;
            complete = rw (sym r.listed) (sort_migrations-Perm us);
            each = All-sort_migrations (IsRead fs) us r.each;
          })
  ]
]
