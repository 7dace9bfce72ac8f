-- ===== src/Migrations/Statements.antt =====
-- db/migrations.go, splitStatements, over the bytes of the text; white space is that of ASCII.
use sdk_api.Base.{
  ℕ, ◌≢◌, inl, inr, Bool, false, ◌&&◌, ◌||◌, List, [], ◌∷◌, ◌++◌, leb, ◌==◌, nat_eq, string_eq,
  if◌then◌else◌, Bool-cases, All,
}
use sdk_api.Base.Bytes.{Bytes, bytes_eq}

-- The lines of a text, as strings.SplitSeq on a newline gives them.
unfoldable pub split_lines : Bytes → List Bytes
split_lines [] = [] ∷ []
split_lines (c ∷ s) =
    let rest = split_lines s in
    if c == b'\n'
    then [] ∷ rest
    else elim rest [ [] ↦ (c ∷ []) ∷ [] | line ∷ lines ↦ (c ∷ line) ∷ lines ]

abbrev is_space : ℕ → Bool
is_space c = c == 32 || (leb 9 c && leb c 13)

unfoldable pub trim_left : Bytes → Bytes
trim_left [] = []
trim_left (c ∷ s) = if is_space c then trim_left s else c ∷ s

unfoldable pub trim_right : Bytes → Bytes
trim_right [] = []
trim_right (c ∷ s) = elim (trim_right s) [
  | [] ↦ if is_space c then [] else c ∷ []
  | d ∷ t ↦ c ∷ d ∷ t
]

-- strings.TrimSpace.
abbrev pub trim : Bytes → Bytes
trim s = trim_right (trim_left s)

abbrev is_comment : Bytes → Bool
is_comment (c ∷ d ∷ s) = c == b'-' && d == b'-'
is_comment s = false

unfoldable pub ends_semicolon : Bytes → Bool
ends_semicolon [] = false
ends_semicolon (c ∷ []) = c == b';'
ends_semicolon (c ∷ d ∷ s) = ends_semicolon (d ∷ s)

-- strings.TrimSuffix of a semicolon.
unfoldable pub trim_semicolon : Bytes → Bytes
trim_semicolon [] = []
trim_semicolon (c ∷ []) = if c == b';' then [] else c ∷ []
trim_semicolon (c ∷ d ∷ s) = c ∷ trim_semicolon (d ∷ s)

-- `if stmt != "" { out = append(out, stmt) }`, before what comes later.
abbrev keep : Bytes → List Bytes → List Bytes
keep [] later = later
keep (c ∷ s) later = (c ∷ s) ∷ later

-- The loop over the lines, with the text gathered so far.
unfoldable pub statements_from : List Bytes → Bytes → List Bytes
statements_from [] gathered = keep (trim gathered) []
statements_from (line ∷ lines) gathered =
    let gathered' = gathered ++ (line ++ b'\n' ∷ []) in
    let passed = statements_from lines gathered in
    let ended = statements_from lines [] in
    let longer = statements_from lines gathered' in
    if trim line == [] || is_comment (trim line)
    then passed
    else if ends_semicolon (trim line)
    then keep (trim (trim_semicolon (trim gathered'))) ended
    else longer

-- `splitStatements`.
unfoldable pub split_statements : Bytes → List Bytes
split_statements sql = statements_from (split_lines sql) []

keep-All :
    (s : Bytes) (later : List Bytes) → All (λ t. t ≢ []) later → All (λ t. t ≢ []) (keep s later)
keep-All [] later h = h
keep-All (c ∷ s) later h = (λ e. cc, h)

statements_from-All :
    (lines : List Bytes) (gathered : Bytes) → All (λ t. t ≢ []) (statements_from lines gathered)
unfolding statements_from
statements_from-All [] gathered = keep-All (trim gathered) [] tt
statements_from-All (line ∷ lines) gathered =
    elim (Bool-cases (trim line == [] || is_comment (trim line))) [
      | inl skipped ↦ rw skipped (statements_from-All lines gathered)
      | inr used ↦ elim (Bool-cases (ends_semicolon (trim line))) [
        | inl last ↦ rw used (rw last (keep-All _ _ (statements_from-All lines [])))
        | inr more ↦ rw used (rw more (statements_from-All lines _))
      ]
    ]

-- No statement of a migration is empty: nothing blank is sent to the database.
pub split_statements-All : (sql : Bytes) → All (λ t. t ≢ []) (split_statements sql)
unfolding split_statements
split_statements-All sql = statements_from-All (split_lines sql) []
