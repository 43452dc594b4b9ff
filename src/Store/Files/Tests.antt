-- ===== src/Store/Files/Tests.antt =====
-- internal/store/migrate.go: a directory with two migrations and a folder.
use tallybook.Prelude.{
  ◌≡◌, refl, true, false, Option, none, some, List, [], ◌∷◌, if◌then◌else◌, map, arith,
}
use tallybook.Prelude.Bytes.{Bytes, bytes_eq, ascii}
use tallybook.Prelude.Result.{ok, err}
use tallybook.Prelude.Text.{is_empty, parse_nat}
use tallybook.Store.Files.{
  Entry, Fs, Migration, bad_name, bad_version, used_twice, no_migrations, is_digit, is_word, atoi,
  prior, match_filename, sort_migrations, parse_migrations, migrations,
}
use tallybook.Store.Files.Applied.{parse_migrations-migrate}
use tallybook.Store.Migrate.{Faults, works, breaks_after, Db, Outcome, rows_of, migrate}
use tallybook.Store.Migrate.Progress.{row_of, run_all, At}
use tallybook.Store.Migrate.Runs.{quiet, runs}
use tallybook.Store.Files.Names.{IsFilename}
use tallybook.Store.Files.Parsed.{files, Reads, Parsed, parse_migrations-Parsed}
use tallybook.Store.Files.Complete.{parse_migrations_total}

abbrev file : Bytes → Entry
file name = record { name = name; is_dir = false }

abbrev contents : Bytes → Option Bytes
contents name =
    if bytes_eq name (ascii "0001_a.sql")
    then some (ascii "A")
    else if bytes_eq name (ascii "0002_b.sql")
    then some (ascii "B")
    else none

abbrev holding : List Entry → Fs
holding entries = record { read_dir = some entries; read_file = contents }

abbrev two_files : List Entry
two_files =
    file (ascii "0002_b.sql")
    ∷ record { name = ascii "old"; is_dir = true }
    ∷ file (ascii "0001_a.sql")
    ∷ []

abbrev first : Migration
first = record { version = 1; name = ascii "a"; filename = ascii "0001_a.sql"; sql = ascii "A" }

abbrev second : Migration
second = record { version = 2; name = ascii "b"; filename = ascii "0002_b.sql"; sql = ascii "B" }

sorted_test : migrations (some (holding two_files)) ≡ ok (first ∷ second ∷ [])
unfolding migrations parse_migrations match_filename is_digit is_word bytes_eq atoi parse_nat prior
sorted_test = refl

twice_test :
    parse_migrations (holding (file (ascii "0001_a.sql") ∷ file (ascii "1_b.sql") ∷ []))
    ≡ err (used_twice 1 (ascii "0001_a.sql") (ascii "1_b.sql"))
unfolding parse_migrations match_filename is_digit is_word bytes_eq atoi parse_nat prior
twice_test = refl

name_test :
    parse_migrations (holding (file (ascii "0001_a.sq") ∷ [])) ≡ err (bad_name (ascii "0001_a.sq"))
unfolding parse_migrations match_filename is_digit is_word bytes_eq atoi parse_nat prior
name_test = refl

-- A number that no int holds passes the pattern and fails behind it.
version_test :
    parse_migrations (holding (file (ascii "9223372036854775808_a.sql") ∷ []))
    ≡ err (bad_version (ascii "9223372036854775808_a.sql"))
unfolding parse_migrations match_filename is_digit is_word bytes_eq atoi parse_nat prior
version_test = refl

empty_test : parse_migrations (holding []) ≡ err no_migrations
unfolding parse_migrations match_filename is_digit is_word bytes_eq atoi parse_nat prior
empty_test = refl

abbrev spelled_name : IsFilename (ascii "0001_a.sql") (ascii "0001") (ascii "a")
unfolding is_digit is_word is_empty
spelled_name = record {
  spelled = refl;
  digits_filled = refl;
  digits_run = (refl, (refl, (refl, (refl, tt))));
  label_filled = refl;
  label_run = (refl, tt);
}

parse_migrations-Parsed_example : Parsed (holding two_files) (first ∷ second ∷ [])
unfolding parse_migrations match_filename is_digit is_word bytes_eq atoi parse_nat prior
parse_migrations-Parsed_example =
    parse_migrations-Parsed (holding two_files) (first ∷ second ∷ []) refl

two_files-Reads : Reads (holding two_files) two_files (second ∷ first ∷ [])
unfolding files is_digit is_word is_empty atoi bytes_eq parse_nat
two_files-Reads = record {
  listed = refl;
  each = (
    record {
      digits = ascii "0002";
      named = record {
        spelled = refl;
        digits_filled = refl;
        digits_run = (refl, (refl, (refl, (refl, tt))));
        label_filled = refl;
        label_run = (refl, tt);
      };
      version = refl;
      contents = refl;
    },
    (record { digits = ascii "0001"; named = spelled_name; version = refl; contents = refl }, tt),
  );
  distinct = (((λ e. cc), tt), (tt, tt));
}

parse_migrations_total_example :
    parse_migrations (holding two_files) ≡ ok (sort_migrations (second ∷ first ∷ []))
parse_migrations_total_example =
    parse_migrations_total (holding two_files) two_files second (first ∷ []) refl two_files-Reads

-- The schema is the list of the texts that have run.
abbrev toy_run : Bytes → List Bytes → Option (List Bytes)
toy_run sql texts = some (sql ∷ texts)

-- A database that has the first migration, and a run whose connection is lost at the commit.
abbrev after_first : Db (List Bytes)
after_first = record {
  schema = ascii "A" ∷ [];
  applied = some (record { version = 1; name = ascii "a" } ∷ []);
}

abbrev lossy : Faults
lossy = record {
  on_create = works;
  on_query = false;
  on_tx = λ v. record {
    on_begin = false;
    on_exec = false;
    on_record = false;
    on_commit = breaks_after;
  };
}

after_first-At : At toy_run [] (first ∷ []) after_first
unfolding rows_of run_all
after_first-At = record { rows = refl; schema = refl }

parse_migrations-migrate_example :
    (let ms : List Migration = first ∷ second ∷ [] in
      let o : Outcome (List Bytes) =
        migrate toy_run quiet (runs toy_run (lossy ∷ []) after_first ms) ms in
      (o.error ≡ none)
      × (o.db.schema ≡ ascii "B" ∷ ascii "A" ∷ [])
      × (rows_of o.db ≡ map row_of ms))
unfolding parse_migrations match_filename is_digit is_word bytes_eq atoi parse_nat prior run_all
parse_migrations-migrate_example =
    parse_migrations-migrate toy_run (holding two_files) (first ∷ second ∷ []) (first ∷ [])
      (second ∷ []) [] (ascii "B" ∷ ascii "A" ∷ []) after_first (lossy ∷ []) refl refl
      after_first-At (omega arith, (omega arith, tt)) refl
