-- ===== src/Query.antt =====
-- db/query.go: the dialects, the expressions written for each of them, and Rewrite. Where the code has
-- an index into the query, a function here has the text from that index on.
pub mod Upsert
pub mod Rewrite
pub mod Reading
pub mod Calls
pub mod Translated
pub mod InList
pub mod Columns
pub mod Excluded
pub mod Conflict
mod Tests
use sdk_api.Base.{
  ℕ, subst, zero, suc, ◌+◌, ◌-◌, ◌*◌, ◌≤◌, ◌<◌, ◌/◌, ◌%◌, ◌^◌, String, ◌≡◌, refl, sym, ap, ◌∙◌, ◌≢◌,
  ◌↔◌, ◌⊎◌, inl, inr, Bool, true, false, not, ◌&&◌, ◌||◌, Option, none, some, List, [], ◌∷◌, ◌++◌,
  map, arith, ltb, leb, nat_beq, nat_beq_iff, Eq, ◌==◌, ==_iff, nat_eq, string_eq, if◌then◌else◌,
  Bool-cases, Option-cases, is_some, length, get_elem?, set, take, length-append, length-set,
  get_elem?-append_last, get_elem?-append_left, get_elem?-set_ne, get_elem?-set_self, All, Map,
  lookup, insert, delete, lookup-insert, lookup-delete, contains, contains-cons_self,
  contains-cons_of_contains, contains-cons_cases, IsMap, retain, kept, insert-IsMap, delete-IsMap,
  lookup-retain, retain-IsMap,
}
use sdk_api.Base.Bytes.{Bytes, codes, bytes_eq, is_prefix}
use sdk_api.Base.Decimal.{ℤ, pos, clamped, itoa, print_int, atoi}
use sdk_api.Base.Text.{
  is_digit, to_lower, to_upper, trim, trim_suffix_byte, fields, join, drop, front, after,
}

-- DialectPostgres, DialectMySQL, DialectSQLite.
pub data SqlDialect : Type 0 where
  postgres mysql sqlite : SqlDialect

-- `DialectForDriver`.
unfoldable pub dialect_for_driver : String → SqlDialect
dialect_for_driver driver =
    if driver == "mysql" || driver == "mariadb"
    then mysql
    else if driver == "turso"
        || driver == "turso-serverless"
        || driver == "libsql"
        || driver == "go-libsql"
        || driver == "sqlite"
    then sqlite
    else postgres

-- `Placeholder`.
unfoldable pub placeholder : SqlDialect → ℕ → Bytes
placeholder postgres i = b'$' ∷ itoa i
placeholder _ i = b'?' ∷ []

-- `RandomUUIDExpr`.
unfoldable pub random_uuid_expr : SqlDialect → Bytes
random_uuid_expr mysql = codes "(UUID())"
random_uuid_expr sqlite = codes "(lower(hex(randomblob(16))))"
random_uuid_expr postgres = codes "gen_random_uuid()"

-- `Now`.
unfoldable pub now : SqlDialect → Bytes
now mysql = codes "NOW()"
now sqlite = codes "CURRENT_TIMESTAMP"
now postgres = codes "now()"

abbrev last_field : Bytes → List Bytes → Bytes
last_field f [] = f
last_field f (g ∷ fs) = last_field g fs

abbrev unit_name : Bytes → Bytes
unit_name s = trim_suffix_byte b's' (to_lower s)

-- `parseInterval`.
unfoldable pub parse_interval : Bytes → ℤ × Bytes
parse_interval interval = elim (fields (trim interval)) [
  | [] ↦ (pos 1, unit_name interval)
  | amount ∷ [] ↦ (pos 1, unit_name interval)
  | amount ∷ f ∷ fs ↦ elim (atoi amount) [
    | none ↦ (pos 1, unit_name (last_field f fs))
    | some n ↦ (n, unit_name (last_field f fs))
  ]
]

-- `AddInterval`.
unfoldable pub add_interval : SqlDialect → (base interval : Bytes) → Bytes
add_interval d base interval =
    let (amount, unit) = parse_interval interval in
    elim d [
      | mysql ↦
          codes "DATE_ADD("
          ++ (base
              ++ (codes ", INTERVAL "
                  ++ (print_int amount ++ (b' ' ∷ (to_upper unit ++ codes ")")))))
      | sqlite ↦
          codes "datetime("
          ++ (base ++ (codes ", '+" ++ (print_int amount ++ (b' ' ∷ (unit ++ codes "')")))))
      | postgres ↦
          codes "("
          ++ (base
              ++ (codes " + interval '" ++ (print_int amount ++ (b' ' ∷ (unit ++ codes "')")))))
    ]

-- `ReturningClause`.
unfoldable pub returning_clause : SqlDialect → Bytes → Bytes
returning_clause mysql cols = []
returning_clause _ cols = codes "RETURNING " ++ cols

abbrev pub placeholders : SqlDialect → ℕ → List Bytes → List Bytes
placeholders d i [] = []
placeholders d i (v ∷ vs) = placeholder d (i + 1) ∷ placeholders d (i + 1) vs

-- `InList`.
unfoldable pub in_list : SqlDialect → (column : Bytes) → List Bytes → Bytes × List Bytes
in_list d column [] = (codes "1 = 0", [])
in_list d column (v ∷ vs) = (
  column ++ (codes " IN (" ++ (join (codes ", ") (placeholders d 0 (v ∷ vs)) ++ codes ")")),
  v ∷ vs,
)

-- `isIdentStart` and `isIdentPart`.
abbrev pub is_ident_start : ℕ → Bool
is_ident_start c = c == b'_' || (leb b'a' c && leb c b'z') || (leb b'A' c && leb c b'Z')

abbrev pub is_ident_part : ℕ → Bool
is_ident_part c = is_ident_start c || is_digit c

abbrev is_blank : ℕ → Bool
is_blank c = c == 32

-- `skipSpace`.
abbrev pub skip_space : Bytes → Bytes
skip_space = after is_blank

abbrev pub is_quote : ℕ → Bool
is_quote c = c == b'\''

-- `takePlaceholder`: the number of the argument, and the digits that spell it.
unfoldable pub take_placeholder : Bytes → (nargs : ℕ) → Option (ℕ × Bytes)
take_placeholder [] nargs = none
take_placeholder (c ∷ s) nargs =
    let digits = front is_digit s in
    let n = clamped digits in
    if not (c == b'$') || digits == [] || ltb n 1 || ltb nargs n then none else some (n, digits)

-- `matchCall`: what follows the closing parenthesis.
unfoldable pub match_call : Bytes → Option Bytes
match_call s = elim (skip_space s) [
  | [] ↦ none
  | c ∷ t ↦
      if c == b'('
      then elim (skip_space t) [ [] ↦ none | e ∷ u ↦ if e == b')' then some u else none ]
      else none
]

-- `takeQuoted`: the text inside the quotes, and what follows them.
unfoldable pub take_quoted : Bytes → Option (Bytes × Bytes)
take_quoted [] = none
take_quoted (c ∷ s) =
    if is_quote c
    then elim (after (λ e. not (is_quote e)) s) [
      | [] ↦ none
      | _ ∷ t ↦ some (front (λ e. not (is_quote e)) s, t)
    ]
    else none

-- `takeInterval`, on what follows the call: the expression, and the text after the interval.
unfoldable pub take_interval : SqlDialect → Bytes → Option (Bytes × Bytes)
take_interval d s = elim (skip_space s) [
  | [] ↦ none
  | c ∷ t ↦
      if c == b'+'
      then (let u = skip_space t in
          if is_prefix (codes "interval") (to_lower u)
          then elim (take_quoted (skip_space (drop 8 u))) [
            | none ↦ none
            | some q ↦ some (add_interval d (now d) q.0, q.1)
          ]
          else none)
      else none
]

-- `takeFunction`: the expression that stands for the call at this place, and the text after it.
unfoldable pub take_function : SqlDialect → Bytes → Option (Bytes × Bytes)
take_function d [] = none
take_function d (c ∷ s) =
    let name = to_lower (c ∷ front is_ident_part s) in
    if is_ident_start c
    then elim (match_call (after is_ident_part s)) [
      | none ↦ none
      | some rest ↦
          if name == codes "now"
          then elim (take_interval d rest) [ none ↦ some (now d, rest) | some e ↦ some e ]
          else if name == codes "gen_random_uuid"
          then some (random_uuid_expr d, rest)
          else none
    ]
    else none
