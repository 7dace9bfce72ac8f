-- ===== src/Migrations/Tests.antt =====
-- db/migrations.go on concrete files. A schema is the list of the statements that were run.
use sdk_api.Base.{
  ℕ, ◌≡◌, refl, ◌⊎◌, inl, inr, true, false, none, some, List, [], ◌∷◌, ◌++◌, arith, ◌==◌, nat_eq,
  string_eq, if◌then◌else◌, All, lookup, insert,
}
use sdk_api.Base.Bytes.{Bytes, bytes_eq, codes, cut_suffix}
use sdk_api.Migrations.Statements.{
  split_lines, trim_left, trim_right, ends_semicolon, trim_semicolon, statements_from,
  split_statements,
}
use sdk_api.Migrations.Files.{
  Migration, DirEntry, span_digits, name_of, match_file, atoi_from, up_file, has_version,
  insert_sorted, loaded, load_from, new_migrator, Ascending,
}
use sdk_api.Migrations.Runner.{
  External, Failure, Db, run_statements, record_version, apply_one, up_from, up, decimal_from,
  down_name, last_applied, roll_back, down,
}
use sdk_api.Migrations.Runner.Applied.{Recorded, Grows, up-Recorded}
use sdk_api.Migrations.Runner.Reverting.{is_applied_in, Highest, down_outcomes}

abbrev two_statements : Bytes
two_statements = codes "-- users\nCREATE TABLE u (id INT);\n\nDROP TABLE v;\n"

split_test :
    split_statements two_statements ≡ codes "CREATE TABLE u (id INT)" ∷ codes "DROP TABLE v" ∷ []
unfolding split_statements statements_from split_lines trim_left trim_right ends_semicolon
    trim_semicolon
split_test = refl

abbrev file : (name sql : Bytes) → DirEntry
file name sql = record { file_name = name; is_dir = false; content = some sql }

abbrev entries : List DirEntry
entries =
    file (codes "0002_b.sql") (codes "B;")
    ∷ file (codes "0001_a.down.sql") (codes "C;")
    ∷ file (codes "0001_a.sql") (codes "A;")
    ∷ []

abbrev both : List Migration
both =
    record { version = 1; name = codes "a"; sql = codes "A;"; checksum = codes "A;" }
    ∷ record { version = 2; name = codes "b"; sql = codes "B;"; checksum = codes "B;" }
    ∷ []

loads_both : new_migrator (λ s. s) entries ≡ loaded both
unfolding new_migrator load_from up_file match_file name_of span_digits cut_suffix atoi_from
    has_version insert_sorted
loads_both = refl

both-Ascending : Ascending both
both-Ascending = ((omega arith, tt), (tt, tt))

abbrev log : External
log = record {
  Schema = List Bytes;
  exec = λ st sc. some (sc ++ st ∷ []);
  ensures = true;
  reads = true;
  begins = λ v. true;
  records = λ v. true;
  commits = λ v. true;
  read_file = λ name. if name == codes "0002_b.down.sql" then some (codes "D;") else none;
}

abbrev empty_db : Db log
empty_db = record { schema = []; table = [] }

up_fine : (up log both empty_db).error ≡ none
unfolding up up_from apply_one run_statements record_version lookup insert split_statements
    statements_from split_lines trim_left trim_right ends_semicolon trim_semicolon
up_fine = refl

up-Recorded_example :
    Recorded log both (up log both empty_db).db.table
    × Grows log empty_db.table (up log both empty_db).db.table
up-Recorded_example = up-Recorded log both empty_db up_fine

abbrev applied_db : Db log
applied_db = (up log both empty_db).db

down_test : (down log both applied_db).1 ≡ inl 2
unfolding up up_from apply_one run_statements record_version lookup insert split_statements
    statements_from split_lines trim_left trim_right ends_semicolon trim_semicolon down last_applied
    down_name decimal_from roll_back
down_test = refl

down_outcomes_example :
    ((failure : Failure) × ((down log both applied_db).1 ≡ inr failure)
      × ((down log both applied_db).0 ≡ applied_db))
    ⊎ (All (λ n. is_applied_in applied_db.table n ≡ false) both
        × (down log both applied_db ≡ (applied_db, inl 0)))
    ⊎ ((m : Migration) × Highest log applied_db.table both m
        × ((down log both applied_db).1 ≡ inl m.version)
        × ((w : ℕ)
            → lookup w (down log both applied_db).0.table
              ≡ (if m.version == w then none else lookup w applied_db.table)))
down_outcomes_example = down_outcomes log both applied_db both-Ascending
