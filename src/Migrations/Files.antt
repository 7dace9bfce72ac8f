-- ===== src/Migrations/Files.antt =====
-- db/migrations.go, NewMigrator: reading and ordering the migration files of a directory. What
-- os.ReadDir lists is a parameter, and so is the checksum. Versions are taken to fit an int.
use sdk_api.Base.{
  ℕ, ◌+◌, ◌-◌, ◌*◌, ◌<◌, ◌≡◌, inl, inr, Bool, false, ◌&&◌, ◌||◌, Option, none, some, List, [], ◌∷◌,
  arith, ltb, leb, ◌==◌, nat_eq, string_eq, if◌then◌else◌, Option-cases, is_some, All,
}
use sdk_api.Base.Bytes.{Bytes, bytes_eq, codes, cut_suffix}

pub record Migration : Type 0 where
  pub version : ℕ
  pub name : Bytes
  pub sql : Bytes
  pub checksum : Bytes

-- An entry of the directory; `content` is missing where the file cannot be read.
pub record DirEntry : Type 0 where
  pub file_name : Bytes
  pub is_dir : Bool
  pub content : Option Bytes

abbrev is_digit : ℕ → Bool
is_digit c = leb 48 c && leb c 57

-- The longest prefix of digits, and the rest.
unfoldable pub span_digits : Bytes → Bytes × Bytes
span_digits [] = ([], [])
span_digits (c ∷ s) =
    let (ds, rest) = span_digits s in if is_digit c then (c ∷ ds, rest) else ([], c ∷ s)

abbrev nonempty : Bytes → Option Bytes
nonempty [] = none
nonempty (c ∷ s) = some (c ∷ s)

-- What follows the digits in `^(\d+)[_-](.+)\.sql$`: the second group.
unfoldable pub name_of : Bytes → Option Bytes
name_of [] = none
name_of (c ∷ s) =
    if c == b'_' || c == b'-'
    then elim (cut_suffix (codes ".sql") s) [ none ↦ none | some t ↦ nonempty t ]
    else none

-- The groups of `migrationFileRe`.
unfoldable pub match_file : Bytes → Option (Bytes × Bytes)
match_file file = elim (span_digits file).0 [
  | [] ↦ none
  | d ∷ ds ↦ elim (name_of (span_digits file).1) [ none ↦ none | some name ↦ some (d ∷ ds, name) ]
]

-- `atoi`: `n` is the number so far.
unfoldable pub atoi_from : ℕ → Bytes → ℕ
atoi_from n [] = n
atoi_from n (c ∷ s) = let rest = atoi_from (n * 10 + (c - 48)) s in if is_digit c then rest else n

abbrev pub atoi : Bytes → ℕ
atoi s = atoi_from 0 s

-- How NewMigrator may fail on an entry.
pub data LoadError : Type 0 where
  duplicate_version : ℕ → LoadError
  cannot_read : Bytes → LoadError

pub data Loaded : Type 0 where
  load_failed : LoadError → Loaded
  loaded : List Migration → Loaded

-- The version and the name of an entry that is an up migration.
unfoldable pub up_file : DirEntry → Option (ℕ × Bytes)
up_file e = if e.is_dir then none else elim (match_file e.file_name) [
  | none ↦ none
  | some (digits, name) ↦
      if is_some (cut_suffix (codes ".down") name) then none else some (atoi digits, name)
]

unfoldable pub has_version : ℕ → List Migration → Bool
has_version v [] = false
has_version v (m ∷ ms) = v == m.version || has_version v ms

-- `sort.Slice` by version: on the distinct versions of the loop there is one order.
unfoldable pub insert_sorted : Migration → List Migration → List Migration
insert_sorted m [] = m ∷ []
insert_sorted m (n ∷ ms) =
    let rest = insert_sorted m ms in if ltb m.version n.version then m ∷ n ∷ ms else n ∷ rest

-- The loop over the entries; the migrations met so far are kept sorted, and their versions are the
-- keys of `seen`.
unfoldable pub load_from : (Bytes → Bytes) → List DirEntry → List Migration → Loaded
load_from sha [] ms = loaded ms
load_from sha (e ∷ es) ms = elim (up_file e) [
  | none ↦ load_from sha es ms
  | some (version, name) ↦ elim e.content [
    | none ↦
        load_failed
          (if has_version version ms then duplicate_version version else cannot_read e.file_name)
    | some raw ↦
        let m : Migration = record {
          version = version;
          name = name;
          sql = raw;
          checksum = sha raw;
        } in
        let rest = load_from sha es (insert_sorted m ms) in
        if has_version version ms then load_failed (duplicate_version version) else rest
  ]
]

-- `NewMigrator`.
unfoldable pub new_migrator : (Bytes → Bytes) → List DirEntry → Loaded
new_migrator sha entries = load_from sha entries []

-- Every version of `ms` is above `v`.
abbrev pub Above : ℕ → List Migration → Type 0
Above v ms = All (λ m. v < m.version) ms

abbrev pub Ascending : List Migration → Type 0
Ascending [] = Unit
Ascending (m ∷ ms) = Above m.version ms × Ascending ms

Above-trans : (v w : ℕ) (ms : List Migration) → v < w → Above w ms → Above v ms
Above-trans v w [] lt h = tt
Above-trans v w (m ∷ ms) lt h = (omega (arith, h.0), Above-trans v w ms lt h.1)

insert_sorted-Above :
    (v : ℕ) (m : Migration) (ms : List Migration)
    → v < m.version
    → Above v ms
    → Above v (insert_sorted m ms)
unfolding insert_sorted
insert_sorted-Above v m [] lt h = (lt, tt)
insert_sorted-Above v m (n ∷ ms) lt h = ground (arith, insert_sorted-Above v m ms lt)

insert_sorted-Ascending :
    (m : Migration) (ms : List Migration)
    → has_version m.version ms ≡ false
    → Ascending ms
    → Ascending (insert_sorted m ms)
unfolding insert_sorted has_version
insert_sorted-Ascending m [] new h = (tt, tt)
insert_sorted-Ascending m (n ∷ ms) new h = ground (
  arith,
  insert_sorted-Ascending m ms,
  Above-trans m.version n.version ms,
  insert_sorted-Above n.version m ms,
)

load_from-Ascending :
    (sha : Bytes → Bytes) (es : List DirEntry) (ms out : List Migration)
    → Ascending ms
    → load_from sha es ms ≡ loaded out
    → Ascending out
unfolding load_from
load_from-Ascending sha [] ms out h e = ground arith
load_from-Ascending sha (e ∷ es) ms out h eq = elim (Option-cases (up_file e)) [
  | inl passed ↦ ground (arith, load_from-Ascending sha es ms out h)
  | inr ((version, name), listed) ↦ elim (Option-cases e.content) [
    | inl unread ↦ ground arith
    | inr (raw, read) ↦
        let m : Migration = record {
          version = version;
          name = name;
          sql = raw;
          checksum = sha raw;
        } in
        ground
          (arith, insert_sorted-Ascending m ms, load_from-Ascending sha es (insert_sorted m ms) out)
  ]
]

-- Where NewMigrator succeeds, the migrations have distinct versions in ascending order, whatever
-- order the directory lists the files in.
pub new_migrator-Ascending :
    (sha : Bytes → Bytes) (entries : List DirEntry) (ms : List Migration)
    → new_migrator sha entries ≡ loaded ms
    → Ascending ms
unfolding new_migrator
new_migrator-Ascending sha entries ms e = load_from-Ascending sha entries [] ms tt e
