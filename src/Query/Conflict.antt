-- ===== src/Query/Conflict.antt =====
-- UpsertClause for PostgreSQL, translated by translateMySQLUpsert, against UpsertClause for MySQL.
use mathlib.Core.Option.{some-injective}
use sdk_api.Base.{
  ℕ, zero, suc, ◌+◌, ◌≡◌, refl, ap, ◌∙◌, Bool, true, ◌&&◌, some, List, [], ◌∷◌, ◌++◌, map, arith,
  ltb, nat_eq, string_eq, length, take, All,
}
use sdk_api.Base.Bytes.{Bytes, codes, bytes_eq}
use sdk_api.Base.Text.{trim_left, trim_right, trim, to_upper, index, join, drop, after}
use sdk_api.Query.Upsert.{
  Casing, is_space_only, upsert_clause, conflict_action, conflict_target, translate_mysql_upsert,
}
use sdk_api.Query.{postgres, mysql, is_ident_part}
use sdk_api.Query.Columns.{
  column-named, IsColumn, IsTrimmed, append-IsTrimmed, column-IsTrimmed, join-IsTrimmed,
  conflict_target-list,
}
use sdk_api.Query.Excluded.{pg_set, my_set, replace_excluded-sets}

abbrev pub is_ascii : Bytes → Bool
is_ascii [] = true
is_ascii (c ∷ s) = ltb c 128 && is_ascii s

-- strings.ToUpper goes through a text by characters: an ASCII front has its upper case in ASCII.
abbrev pub UppersAscii : Casing → Type 0
UppersAscii casing =
    (a s : Bytes) → is_ascii a ≡ true → casing.upper (a ++ s) ≡ to_upper a ++ casing.upper s

conflict_action-nothing :
    (casing : Casing) (w : Bytes)
    → UppersAscii casing
    → IsColumn w
    → conflict_action casing w (codes "DO NOTHING")
      ≡ some (codes "ON DUPLICATE KEY UPDATE " ++ (w ++ (codes " = " ++ w)))
unfolding conflict_action
conflict_action-nothing casing w uppers h =
    rw (uppers (codes "DO NOTHING") [] refl, column-named w h) refl

pg_set-IsTrimmed : (w : Bytes) → IsColumn w → IsTrimmed (pg_set w)
pg_set-IsTrimmed w h =
    append-IsTrimmed w _ (append-IsTrimmed (codes " = EXCLUDED.") w (column-IsTrimmed w h))

pg_sets-All : (ws : List Bytes) → All IsColumn ws → All IsTrimmed (map pg_set ws)
pg_sets-All [] all = tt
pg_sets-All (w ∷ ws) all = (pg_set-IsTrimmed w all.0, pg_sets-All ws all.1)

trim_left-ident : (c : ℕ) (s : Bytes) → is_ident_part c ≡ true → trim_left (c ∷ s) ≡ c ∷ s
unfolding trim_left
trim_left-ident c s part = ground (arith, part)

trim_left-sets :
    (w : Bytes) (ws : List Bytes)
    → IsColumn w
    → let sets = join (codes ", ") (map pg_set (w ∷ ws)) in trim_left sets ≡ sets
trim_left-sets [] ws h = absurd (h.0 refl)
trim_left-sets (c ∷ w) [] h = trim_left-ident c _ h.1.0
trim_left-sets (c ∷ w) (u ∷ ws) h = trim_left-ident c _ h.1.0

trim_sets :
    (w : Bytes) (ws : List Bytes)
    → All IsColumn (w ∷ ws)
    → let sets = join (codes ", ") (map pg_set (w ∷ ws)) in trim (32 ∷ sets) ≡ sets
unfolding trim_left
trim_sets w ws all =
    ap trim_right (trim_left-sets w ws all.0)
    ∙ (join-IsTrimmed (pg_set w) (map pg_set ws) (pg_sets-All (w ∷ ws) all)).1

conflict_action-sets :
    (casing : Casing) (col w : Bytes) (ws : List Bytes)
    → UppersAscii casing
    → All IsColumn (w ∷ ws)
    → conflict_action casing col (codes "DO UPDATE SET " ++ join (codes ", ") (map pg_set (w ∷ ws)))
      ≡ some (codes "ON DUPLICATE KEY UPDATE " ++ join (codes ", ") (map my_set (w ∷ ws)))
unfolding conflict_action
conflict_action-sets casing col w ws uppers all =
    rw
      (
        uppers (codes "DO UPDATE SET ") (join (codes ", ") (map pg_set (w ∷ ws))) refl,
        trim_sets w ws all,
        replace_excluded-sets w ws all,
      )
      refl

take-append : (s t : Bytes) → take (length s) (s ++ t) ≡ s
take-append [] t = refl
take-append (c ∷ s) t = ap (◌∷◌ c) (take-append s t)

drop-append : (m n : ℕ) (s t : Bytes) → m ≡ n + length s → drop m (s ++ t) ≡ drop n t
drop-append m n [] t e = ap (λ k. drop k t) (e ∙ omega arith)
drop-append zero n (c ∷ s) t e = absurd (omega (arith, e))
drop-append (suc m) n (c ∷ s) t e = drop-append m n s t (omega (arith, e))

translate_mysql_upsert-at :
    (casing : Casing) (query : Bytes) (idx : ℕ) (head rest col action done : Bytes)
    → index (codes "on conflict") (casing.lower query) ≡ some idx
    → take idx query ≡ head
    → after is_space_only (drop (11 + idx) query) ≡ rest
    → conflict_target head rest ≡ (col, action)
    → conflict_action casing col action ≡ some done
    → translate_mysql_upsert casing query ≡ head ++ done
unfolding translate_mysql_upsert
translate_mysql_upsert-at casing query idx head rest col action done found taken behind target
      acts =
    rw (translate_mysql_upsert, found, taken, behind, target, acts) (ap (λ h. h ++ done) taken)

-- The clause is found and replaced.
translate_mysql_upsert-found :
    (casing : Casing) (head w action done : Bytes) (ws : List Bytes)
    → All IsColumn (w ∷ ws)
    → after is_space_only action ≡ action
    → conflict_action casing w action ≡ some done
    → let clause =
        codes "ON CONFLICT (" ++ (join (codes ", ") (w ∷ ws) ++ (codes ") " ++ action)) in
      index (codes "on conflict") (casing.lower (head ++ clause)) ≡ some (length head)
      → translate_mysql_upsert casing (head ++ clause) ≡ head ++ done
translate_mysql_upsert-found casing head w action done ws all unspaced acts found =
    translate_mysql_upsert-at casing _ (length head) head _ w action done found (take-append head _)
      (ap (after is_space_only) (drop-append (11 + length head) 11 head _ refl))
      (conflict_target-list head w ws action all ∙ ap (λ t. (w, t)) unspaced) acts

-- The clause that UpsertClause gives for PostgreSQL, behind any text, is translated to the clause
-- that UpsertClause gives for MySQL, where in the lower case of the whole query the first on
-- conflict begins as far in as that text is long, ToUpper changes ASCII text as in ASCII, the
-- columns are named by identifiers and one conflict column at least is given.
pub translate_mysql_upsert-upsert_clause :
    (casing : Casing) (head w : Bytes) (conflict updates : List Bytes) (pg my : Bytes)
    → UppersAscii casing
    → All IsColumn (w ∷ conflict)
    → All IsColumn updates
    → upsert_clause postgres (w ∷ conflict) updates ≡ some pg
    → upsert_clause mysql (w ∷ conflict) updates ≡ some my
    → index (codes "on conflict") (casing.lower (head ++ pg)) ≡ some (length head)
    → translate_mysql_upsert casing (head ++ pg) ≡ head ++ my
unfolding upsert_clause
translate_mysql_upsert-upsert_clause casing head w conflict [] pg my uppers all sets is_pg is_my
      found =
    let pg_is = some-injective _ _ is_pg in
    let my_is = some-injective _ _ is_my in
    rw (← pg_is, ← my_is)
      (translate_mysql_upsert-found casing head w (codes "DO NOTHING") _ conflict all refl
        (conflict_action-nothing casing w uppers all.0) (rw pg_is found))
translate_mysql_upsert-upsert_clause casing head w conflict (u ∷ updates) pg my uppers all sets
      is_pg is_my found =
    let pg_is = some-injective _ _ is_pg in
    let my_is = some-injective _ _ is_my in
    rw (← pg_is, ← my_is)
      (translate_mysql_upsert-found casing head w _ _ conflict all refl
        (conflict_action-sets casing w u updates uppers sets) (rw pg_is found))
