-- ===== src/Query/Excluded.antt =====
-- The regular expression of translateMySQLUpsert on a list of assignments.
use mathlib.Core.List.{append-nil, append_assoc}
use sdk_api.Base.{
  ℕ, ◌+◌, ◌≡◌, refl, sym, ap, ◌∙◌, true, false, List, [], ◌∷◌, ◌++◌, map, arith, ◌==◌, nat_eq,
  string_eq, length, All,
}
use sdk_api.Base.Bytes.{Bytes, codes, bytes_eq, is_prefix}
use sdk_api.Base.Text.{join, drop, front, starts, front-append}
use sdk_api.Query.Upsert.{replace_excluded}
use sdk_api.Query.{is_ident_part}
use sdk_api.Query.Columns.{column-named, IsColumn, Ident}

-- EXCLUDED and a full stop begin at no byte of a column's name.
pub is_prefix-Ident :
    (p w s : Bytes) → Ident p → Ident w → is_prefix (p ++ codes ".") (w ++ (32 ∷ s)) ≡ false
is_prefix-Ident [] [] s hp hw = refl
is_prefix-Ident [] (c ∷ w) s hp hw = ground (arith, hw.0)
is_prefix-Ident (b ∷ p) [] s hp hw = ground (arith, hp.0)
is_prefix-Ident (b ∷ p) (c ∷ w) s hp hw = rw (is_prefix-Ident p w s hp.1 hw.1) (ground arith)

pub replace_excluded-skip :
    (pre s : Bytes) → replace_excluded (length pre) (pre ++ s) ≡ replace_excluded 0 s
unfolding replace_excluded
replace_excluded-skip [] [] = refl
replace_excluded-skip [] (c ∷ s) = refl
replace_excluded-skip (c ∷ pre) s = replace_excluded-skip pre s

pub replace_excluded-column :
    (w s : Bytes) → Ident w → replace_excluded 0 (w ++ (32 ∷ s)) ≡ w ++ replace_excluded 0 (32 ∷ s)
unfolding replace_excluded
replace_excluded-column [] s all = refl
replace_excluded-column (c ∷ w) s all =
    rw (is_prefix-Ident (codes "EXCLUDED") (c ∷ w) s (ground arith) all)
      (rw (replace_excluded-column w s all.1) refl)

abbrev pub pg_set : Bytes → Bytes
pg_set c = c ++ (codes " = EXCLUDED." ++ c)

abbrev pub my_set : Bytes → Bytes
my_set c = c ++ (codes " = VALUES(" ++ (c ++ codes ")"))

pub replace_excluded-match :
    (c : ℕ) (s name : Bytes)
    → is_prefix (codes "EXCLUDED.") (c ∷ s) ≡ true
    → front is_ident_part (drop 8 s) ≡ name
    → (name == []) ≡ false
    → replace_excluded 0 (c ∷ s)
      ≡ codes "VALUES(" ++ (name ++ (b')' ∷ replace_excluded (8 + length name) s))
unfolding replace_excluded
replace_excluded-match c s name begins read some_name = rw (begins, read, some_name) refl

pub replace_excluded-name :
    (w s : Bytes)
    → IsColumn w
    → starts is_ident_part s ≡ false
    → replace_excluded 0 (codes "EXCLUDED." ++ (w ++ s))
      ≡ codes "VALUES(" ++ (w ++ (b')' ∷ replace_excluded 0 s))
replace_excluded-name w s h apart =
    let same : 8 + length w ≡ length (codes "XCLUDED." ++ w) = omega arith in
    replace_excluded-match b'E' (codes "XCLUDED." ++ (w ++ s)) w refl
      (front-append is_ident_part w s h.1 apart).0 (column-named w h)
    ∙ ap (λ n. codes "VALUES(" ++ (w ++ (b')' ∷ replace_excluded n (codes "XCLUDED." ++ (w ++ s)))))
        same
    ∙ ap (λ t. codes "VALUES(" ++ (w ++ (b')' ∷ t)))
        (replace_excluded-skip (codes "XCLUDED." ++ w) s)

pub replace_excluded-set :
    (w s : Bytes)
    → IsColumn w
    → starts is_ident_part s ≡ false
    → replace_excluded 0 (pg_set w ++ s) ≡ my_set w ++ replace_excluded 0 s
unfolding replace_excluded
replace_excluded-set w s h apart =
    ap (replace_excluded 0) (append_assoc w (codes " = EXCLUDED." ++ w) s)
    ∙ replace_excluded-column w (codes "= EXCLUDED." ++ (w ++ s)) h.1
    ∙ ap (λ t. w ++ (codes " = " ++ t)) (replace_excluded-name w s h apart)
    ∙ simp append_assoc

pub replace_excluded-sets :
    (w : Bytes) (ws : List Bytes)
    → All IsColumn (w ∷ ws)
    → replace_excluded 0 (join (codes ", ") (map pg_set (w ∷ ws)))
      ≡ join (codes ", ") (map my_set (w ∷ ws))
unfolding replace_excluded
replace_excluded-sets w [] all =
    ap (replace_excluded 0) (sym (append-nil (pg_set w)))
    ∙ replace_excluded-set w [] all.0 refl
    ∙ append-nil (my_set w)
replace_excluded-sets w (u ∷ ws) all =
    replace_excluded-set w (codes ", " ++ join (codes ", ") (map pg_set (u ∷ ws))) all.0 refl
    ∙ ap (λ t. my_set w ++ (codes ", " ++ t)) (replace_excluded-sets u ws all.1)
