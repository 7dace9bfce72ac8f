-- ===== src/Migrations/Runner.antt =====
-- db/migrations.go: Status, Up and Down. The database is a parameter: what a statement does to its
-- schema, and whether the calls around the statements succeed. Its control table is part of the
-- state. A transaction that is not committed leaves the database as it was.
pub mod Applied
pub mod Reverting
use sdk_api.Base.{
  ℕ, zero, suc, ◌+◌, ◌-◌, ◌*◌, ◌≤◌, ◌<◌, ◌/◌, ◌%◌, String, ◌≡◌, refl, sym, ap, ◌∙◌, ◌≢◌, ◌↔◌, ◌⊎◌,
  inl, inr, Bool, true, false, not, ◌&&◌, ◌||◌, Option, none, some, List, [], ◌∷◌, ◌++◌, map, arith,
  ltb, leb, nat_beq, nat_beq_iff, Eq, ◌==◌, ==_iff, nat_eq, string_eq, if◌then◌else◌, Bool-cases,
  Option-cases, is_some, length, get_elem?, set, take, length-append, length-set,
  get_elem?-append_last, get_elem?-append_left, get_elem?-set_ne, get_elem?-set_self, All, Map,
  lookup, insert, delete, lookup-insert, lookup-delete, contains, contains-cons_self,
  contains-cons_of_contains, contains-cons_cases, IsMap, retain, kept, insert-IsMap, delete-IsMap,
  lookup-retain, retain-IsMap,
}
use sdk_api.Base.Bytes.{Bytes, bytes_eq, bytes_beq, codes}
use sdk_api.Migrations.Statements.{split_statements}
use sdk_api.Migrations.Files.{Migration}

pub record External : Type 1 where
  pub Schema : Type 0
  pub exec : Bytes → Schema → Option Schema
  -- The calls that may fail: ensureTable, reading the table, and, for a version, the beginning of a
  -- transaction, the write to the control table, and the commit.
  pub ensures : Bool
  pub reads : Bool
  pub begins : ℕ → Bool
  pub records : ℕ → Bool
  pub commits : ℕ → Bool
  -- `m.root.ReadFile`.
  pub read_file : Bytes → Option Bytes

pub data Failure : Type 0 where
  ensure_failed read_failed : Failure
  changed begin_failed statement_failed record_failed commit_failed : ℕ → Failure
  no_down_file : ℕ → Bytes → Failure

pub record MigrationStatus : Type 0 where
  pub migration : Migration
  pub is_applied : Bool
  pub is_modified : Bool

-- A number in decimal, on fuel for its digits, and `%04d`: at least four of them.
unfoldable pub decimal_from : ℕ → ℕ → Bytes → Bytes
decimal_from zero n digits = digits
decimal_from (suc fuel) n digits =
    let longer = decimal_from fuel (n / 10) ((48 + n % 10) ∷ digits) in
    if n == 0 then digits else longer

abbrev pad : ℕ → Bytes → Bytes
pad zero digits = digits
pad (suc n) digits = b'0' ∷ pad n digits

-- `downName`.
unfoldable pub down_name : Migration → Bytes
down_name m =
    let digits = decimal_from m.version m.version [] in
    pad (4 - length digits) digits ++ (b'_' ∷ (m.name ++ codes ".down.sql"))

module _ (ext : External) where
  open ext use {Schema, exec, ensures, reads, begins, records, commits, read_file}

  -- The schema, and the rows of schema_migrations: the checksum of each version.
  pub record Db : Type 0 where
    pub schema : Schema
    pub table : Map ℕ Bytes

  -- The statements of a file, in one transaction.
  unfoldable pub run_statements : List Bytes → Schema → Option Schema
  run_statements [] sc = some sc
  run_statements (st ∷ sts) sc = elim (exec st sc) [
    | none ↦ none
    | some sc' ↦ run_statements sts sc'
  ]

  -- `INSERT INTO schema_migrations`, where `version` is the primary key, and the commit.
  unfoldable pub record_version : Migration → Schema → Db → Db × Option Failure
  record_version m sc db =
      let written : Db × Option Failure =
        (record { schema = sc; table = insert m.version m.checksum db.table }, none) in
      if is_some (lookup m.version db.table) || not (records m.version)
      then (db, some (record_failed m.version))
      else if commits m.version
      then written
      else (db, some (commit_failed m.version))

  -- `applyOne`.
  unfoldable pub apply_one : Migration → Db → Db × Option Failure
  apply_one m db =
      if not (begins m.version)
      then (db, some (begin_failed m.version))
      else elim (run_statements (split_statements m.sql) db.schema) [
        | none ↦ (db, some (statement_failed m.version))
        | some sc ↦ record_version m sc db
      ]

  pub record Run : Type 0 where
    pub db : Db
    pub versions : List ℕ
    pub error : Option Failure

  -- The loop of `Up`; `applied` is what the table held at the beginning.
  unfoldable pub up_from : Map ℕ Bytes → List Migration → Db → List ℕ → Run
  up_from applied [] db so_far = record { db = db; versions = so_far; error = none }
  up_from applied (m ∷ ms) db so_far = elim (lookup m.version applied) [
    | some sum ↦
        let rest = up_from applied ms db so_far in
        if sum == m.checksum
        then rest
        else record { db = db; versions = so_far; error = some (changed m.version) }
    | none ↦ elim (apply_one m db).1 [
      | some failure ↦ record { db = (apply_one m db).0; versions = so_far; error = some failure }
      | none ↦ up_from applied ms (apply_one m db).0 (so_far ++ m.version ∷ [])
    ]
  ]

  -- `ensureTable` and `applied`, before what needs them.
  abbrev failed_first : Option Failure
  failed_first =
      if not ensures then some ensure_failed else if not reads then some read_failed else none

  -- `Up`.
  unfoldable pub up : List Migration → Db → Run
  up ms db = elim failed_first [
    | some failure ↦ record { db = db; versions = []; error = some failure }
    | none ↦ up_from db.table ms db []
  ]

  unfoldable pub status_of : Map ℕ Bytes → Migration → MigrationStatus
  status_of applied m = elim (lookup m.version applied) [
    | none ↦ record { migration = m; is_applied = false; is_modified = false }
    | some sum ↦ record { migration = m; is_applied = true; is_modified = not (sum == m.checksum) }
  ]

  -- `Status`; `none` where it fails.
  unfoldable pub status : List Migration → Db → Option (List MigrationStatus)
  status ms db = elim failed_first [
    | some failure ↦ none
    | none ↦ some (map (status_of db.table) ms)
  ]

  -- The last loaded migration that is applied.
  unfoldable pub last_applied : Map ℕ Bytes → List Migration → Option Migration → Option Migration
  last_applied applied [] last = last
  last_applied applied (m ∷ ms) last =
      last_applied applied ms (if is_some (lookup m.version applied) then some m else last)

  -- The transaction of `Down`.
  unfoldable pub roll_back : Migration → Bytes → Db → Db × Option Failure
  roll_back m raw db =
      let undone : Schema → Db = λ sc. record { schema = sc; table = delete m.version db.table } in
      if not (begins m.version)
      then (db, some (begin_failed m.version))
      else elim (run_statements (split_statements raw) db.schema) [
        | none ↦ (db, some (statement_failed m.version))
        | some sc ↦
            if not (records m.version)
            then (db, some (record_failed m.version))
            else if commits m.version
            then (undone sc, none)
            else (db, some (commit_failed m.version))
      ]

  -- `Down`: the database, and the error or the version (0 where nothing is applied).
  unfoldable pub down : List Migration → Db → Db × (ℕ ⊎ Failure)
  down ms db = elim failed_first [
    | some failure ↦ (db, inr failure)
    | none ↦ elim (last_applied db.table ms none) [
      | none ↦ (db, inl 0)
      | some m ↦ elim (read_file (down_name m)) [
        | none ↦ (db, inr (no_down_file m.version (down_name m)))
        | some raw ↦ (
          (roll_back m raw db).0,
          elim (roll_back m raw db).1 [ none ↦ inl m.version | some failure ↦ inr failure ],
        )
      ]
    ]
  ]
