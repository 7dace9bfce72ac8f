-- ===== src/Query/Upsert.antt =====
-- db/query.go: UpsertClause, and translateMySQLUpsert with the regular expression it replaces by. The
-- letter case of a whole query is a parameter, since it may change the length of a text that is not ASCII.
use sdk_api.Base.{
  ℕ, zero, suc, ◌+◌, Bool, not, ◌&&◌, ◌||◌, Option, none, some, List, [], ◌∷◌, ◌++◌, map, ◌==◌,
  nat_eq, string_eq, if◌then◌else◌, length, take,
}
use sdk_api.Base.Bytes.{Bytes, codes, bytes_eq, is_prefix}
use sdk_api.Base.Text.{trim, index, join, drop, front, after}
use sdk_api.Query.{SqlDialect, mysql, is_ident_part}

-- `UpsertClause`; `conflict[0]` panics where there is no such column.
unfoldable pub upsert_clause : SqlDialect → (conflict updates : List Bytes) → Option Bytes
upsert_clause mysql [] [] = none
upsert_clause mysql (col ∷ conflict) [] =
    some (codes "ON DUPLICATE KEY UPDATE " ++ (col ++ (codes " = " ++ col)))
upsert_clause mysql conflict (u ∷ updates) = some (
    codes "ON DUPLICATE KEY UPDATE "
    ++ join (codes ", ") (map (λ c. c ++ (codes " = VALUES(" ++ (c ++ codes ")"))) (u ∷ updates)))
upsert_clause _ conflict [] =
    some (codes "ON CONFLICT (" ++ (join (codes ", ") conflict ++ codes ") DO NOTHING"))
upsert_clause _ conflict (u ∷ updates) = some (
    codes "ON CONFLICT ("
    ++ (join (codes ", ") conflict
        ++ (codes ") DO UPDATE SET "
            ++ join (codes ", ") (map (λ c. c ++ (codes " = EXCLUDED." ++ c)) (u ∷ updates)))))

-- strings.Trim of backticks and double quotes.
abbrev pub is_mark : ℕ → Bool
is_mark c = c == b'`' || c == b'"'

unfoldable pub trim_marks_right : Bytes → Bytes
trim_marks_right [] = []
trim_marks_right (c ∷ s) = elim (trim_marks_right s) [
  | [] ↦ if is_mark c then [] else c ∷ []
  | d ∷ t ↦ c ∷ d ∷ t
]

abbrev pub trim_marks : Bytes → Bytes
trim_marks s = trim_marks_right (after is_mark s)

abbrev pub ends_column : ℕ → Bool
ends_column c = c == b',' || c == b')'

-- `firstColumn`.
unfoldable pub first_column : Bytes → Bytes
first_column s = elim (after (λ c. not (c == b'(')) s) [
  | [] ↦ []
  | _ ∷ rest ↦ trim_marks (trim (front (λ c. not (ends_column c)) rest))
]

-- The loop over `depth`: what stands behind the parenthesis that closes the list, and the text up to
-- and with it.
unfoldable pub closing : (depth : ℕ) → Bytes → Bytes × Bytes
closing zero s = ([], s)
closing (suc depth) [] = ([], [])
closing (suc depth) (c ∷ s) =
    let deeper = closing (suc (suc depth)) s in
    let closed = closing depth s in
    let same = closing (suc depth) s in
    if c == b'('
    then (c ∷ deeper.0, deeper.1)
    else if c == b')'
    then (c ∷ closed.0, closed.1)
    else (c ∷ same.0, same.1)

-- `excludedRe.ReplaceAllString(sets, "VALUES($1)")`, with `skip` bytes of a match still to pass over.
unfoldable pub replace_excluded : (skip : ℕ) → Bytes → Bytes
replace_excluded skip [] = []
replace_excluded (suc skip) (c ∷ s) = replace_excluded skip s
replace_excluded zero (c ∷ s) =
    let name = front is_ident_part (drop 8 s) in
    let passed = replace_excluded (8 + length name) s in
    let kept_byte = replace_excluded 0 s in
    if is_prefix (codes "EXCLUDED.") (c ∷ s) && not (name == [])
    then codes "VALUES(" ++ (name ++ (b')' ∷ passed))
    else c ∷ kept_byte

abbrev pub is_space_only : ℕ → Bool
is_space_only c = c == 32

-- strings.TrimLeft of spaces.
abbrev trim_spaces : Bytes → Bytes
trim_spaces = after is_space_only

-- strings.ToLower and strings.ToUpper.
pub record Casing : Type 0 where
  pub lower : Bytes → Bytes
  pub upper : Bytes → Bytes

-- The switch of `translateMySQLUpsert`, on the conflict column and what follows it; `none` for
-- `return query`.
unfoldable pub conflict_action : Casing → (col rest : Bytes) → Option Bytes
conflict_action casing col rest =
    if is_prefix (codes "DO NOTHING") (casing.upper rest)
    then (if col == []
        then none
        else some (codes "ON DUPLICATE KEY UPDATE " ++ (col ++ (codes " = " ++ col))))
    else if is_prefix (codes "DO UPDATE SET") (casing.upper rest)
    then some (codes "ON DUPLICATE KEY UPDATE " ++ replace_excluded 0 (trim (drop 13 rest)))
    else none

-- The conflict column and what follows it, from the text behind ON CONFLICT.
unfoldable pub conflict_target : (head rest : Bytes) → Bytes × Bytes
conflict_target head [] = (first_column head, [])
conflict_target head (c ∷ s) =
    let (inside, behind) = closing 1 s in
    let named = first_column (c ∷ inside) in
    if c == b'('
    then (if named == [] then first_column head else named, trim_spaces behind)
    else (first_column head, c ∷ s)

-- `translateMySQLUpsert`. The index is one of the lower case and is used on the query itself; where
-- it leads behind the end of the query, the code panics, and the cut is at the end here.
unfoldable pub translate_mysql_upsert : Casing → Bytes → Bytes
translate_mysql_upsert casing query = elim (index (codes "on conflict") (casing.lower query)) [
  | none ↦ query
  | some idx ↦
      let head = take idx query in
      let (col, rest) = conflict_target head (trim_spaces (drop (11 + idx) query)) in
      elim (conflict_action casing col rest) [ none ↦ query | some action ↦ head ++ action ]
]
