-- ===== src/Store/Files/Complete.antt =====
-- internal/store/migrate.go: a directory in order is read without an error.
use tallybook.Prelude.{
  ℕ, ◌≡◌, ◌≢◌, refl, sym, ◌∙◌, false, none, some, List, [], ◌∷◌, All, arith, Bool-cases, inl, inr,
}
use tallybook.Prelude.Bytes.{Bytes}
use tallybook.Prelude.Result.{ok}
use tallybook.Store.Files.{
  Entry, Fs, Migration, prior, check_unused, parse_file, parse_entries, sort_migrations,
  sorted_or_none, parse_migrations,
}
use tallybook.Store.Files.Names.{match_filename_iff}
use tallybook.Store.Files.Sort.{IsDistinct, filenames}
use tallybook.Store.Files.Parsed.{
  files, IsRead, Reads, Unused, files-dir, files-file, parse_entries-dir, parse_entries-cons,
  parse_migrations-eq,
}

-- A migration's file is read as that migration where its version was not seen.
parse_file-IsRead :
    (fs : Fs) (seen : List (ℕ × Bytes)) (m : Migration)
    → IsRead fs m
    → prior m.version seen ≡ none
    → parse_file fs seen m.filename ≡ ok m
unfolding parse_file check_unused
parse_file-IsRead fs seen m r u =
    rw
      (
        parse_file,
        (match_filename_iff m.filename r.digits m.name).1 r.named,
        r.version,
        u,
        check_unused,
        r.contents,
      )
      refl

Unused-cons :
    (v : ℕ) (name : Bytes) (seen : List (ℕ × Bytes)) (ms : List Migration)
    → All (λ n. n.version ≢ v) ms
    → Unused seen ms
    → Unused ((v, name) ∷ seen) ms
unfolding prior
Unused-cons v name seen [] d u = tt
Unused-cons v name seen (m ∷ ms) (d, ds) (u, us) = (ground arith, Unused-cons v name seen ms ds us)

-- The first file of a directory is the first migration.
parse_entries-first :
    (fs : Fs) (seen : List (ℕ × Bytes)) (e : Entry) (entries : List Entry) (m : Migration)
    (ms : List Migration)
    → e.is_dir ≡ false
    → m.filename ≡ e.name
    → IsRead fs m
    → prior m.version seen ≡ none
    → parse_entries fs ((m.version, e.name) ∷ seen) entries ≡ ok ms
    → parse_entries fs seen (e ∷ entries) ≡ ok (m ∷ ms)
parse_entries-first fs seen e entries m ms d n r u g =
    parse_entries-cons fs seen e entries m ms d (rw (sym n) (parse_file-IsRead fs seen m r u)) g

parse_entries-read :
    (fs : Fs) (seen : List (ℕ × Bytes)) (entries : List Entry) (ms : List Migration)
    → filenames ms ≡ files entries
    → All (IsRead fs) ms
    → IsDistinct ms
    → Unused seen ms
    → parse_entries fs seen entries ≡ ok ms
unfolding parse_entries files
parse_entries-read fs seen [] [] e r d u = refl
parse_entries-read fs seen [] (m ∷ ms) e r d u = cc
parse_entries-read fs seen (x ∷ entries) [] e r d u = elim (Bool-cases x.is_dir) [
  | inl b ↦
      parse_entries-dir fs seen x entries b
      ∙ parse_entries-read fs seen entries [] (e ∙ files-dir x entries b) r d u
  | inr b ↦ let f = e ∙ files-file x entries b in cc
]
parse_entries-read fs seen (x ∷ entries) (m ∷ ms) e r d u = elim (Bool-cases x.is_dir) [
  | inl b ↦
      parse_entries-dir fs seen x entries b
      ∙ parse_entries-read fs seen entries (m ∷ ms) (e ∙ files-dir x entries b) r d u
  | inr b ↦
      let f = e ∙ files-file x entries b in
      let n : m.filename ≡ x.name = cc in
      let g : filenames ms ≡ files entries = cc in
      parse_entries-first fs seen x entries m ms b n r.0 u.0 (
        parse_entries-read fs ((m.version, x.name) ∷ seen) entries ms g r.1 d.1
          (Unused-cons m.version x.name seen ms d.0 u.1))
]

Unused-nil : (ms : List Migration) → Unused [] ms
unfolding prior
Unused-nil [] = tt
Unused-nil (m ∷ ms) = (refl, Unused-nil ms)

-- A directory is read without an error where each of its files that are not directories, in the
-- order of the entries, is spelled by the convention, has a version that an int holds and can be
-- read, no two have one version, and there is a file: the result is the sorted migrations.
pub parse_migrations_total :
    (fs : Fs) (entries : List Entry) (m : Migration) (ms : List Migration)
    → fs.read_dir ≡ some entries
    → Reads fs entries (m ∷ ms)
    → parse_migrations fs ≡ ok (sort_migrations (m ∷ ms))
unfolding sorted_or_none
parse_migrations_total fs entries m ms e r =
    parse_migrations-eq fs entries (m ∷ ms) e
      (parse_entries-read fs [] entries (m ∷ ms) r.listed r.each r.distinct (Unused-nil (m ∷ ms)))
