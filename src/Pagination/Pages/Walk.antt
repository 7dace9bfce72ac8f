-- ===== src/Pagination/Pages/Walk.antt =====
-- db/pagination.go: following the cursors of QueryKeyset, and the numbers of QueryPaginated.
use sdk_api.Base.{
  ℕ, zero, suc, ◌-◌, ◌≤◌, ◌<◌, ◌≡◌, refl, sym, ap, ◌∙◌, ◌⊎◌, inl, inr, true, Option, none, some,
  List, [], ◌∷◌, ◌++◌, arith, ltb, nat_eq, string_eq, Bool-cases, length, take, All,
}
use sdk_api.Pagination.Pages.{drop, size_or_default, is_after, rows_after, key_at, query_keyset}
use sdk_api.Pagination.Pages.Slices.{
  take_all, take-take-suc, take-append-drop, length-drop, length-take_lt, length-take_ge,
}

-- Keys in strictly ascending order.
abbrev pub Ascending : {Row : Type 0} → (Row → ℕ) → List Row → Type 0
Ascending key [] = Unit
Ascending key (r ∷ rs) = All (λ q. key r < key q) rs × Ascending key rs

module _ {Row : Type 0} (key : Row → ℕ) where
  rows_after_of_All :
      (c : ℕ) (rs : List Row) → All (λ r. c < key r) rs → rows_after key (some c) rs ≡ rs
  unfolding rows_after
  rows_after_of_All c [] h = refl
  rows_after_of_All c (r ∷ rs) h = ground (arith, rows_after_of_All c rs)

  key_at_lt :
      (n c i : ℕ) (rs : List Row) → All (λ r. n < key r) rs → key_at key rs i ≡ some c → n < c
  key_at_lt n c i [] h e = cc
  key_at_lt n c zero (r ∷ rs) h e = ground (arith, e)
  key_at_lt n c (suc i) (r ∷ rs) h e = key_at_lt n c i rs h.1 e

  -- The rows after a row of an ascending list are those behind it.
  rows_after_row :
      (rs : List Row) (i c : ℕ)
      → Ascending key rs
      → key_at key rs i ≡ some c
      → rows_after key (some c) rs ≡ drop (suc i) rs
  unfolding rows_after
  rows_after_row [] i c up e = refl
  rows_after_row (r ∷ rs) zero c up e =
      let is : key r ≡ c = ground arith in
      let rest = rows_after_of_All c rs (rw is at up.0) in ground (arith, rest)
  rows_after_row (r ∷ rs) (suc i) c up e =
      let rest = rows_after_row rs i c up.1 e in
      ground (arith, rest, key_at_lt (key r) c i rs up.0 e)

  after_none : (rs : List Row) → rows_after key none rs ≡ rs
  unfolding rows_after
  after_none [] = refl
  after_none (r ∷ rs) = ap (λ (t : List Row). r ∷ t) (after_none rs)

  -- A cursor beyond another one leaves the same rows, before and after the first is applied.
  rows_after-rows_after :
      (cursor : Option ℕ) (c : ℕ) (rs : List Row)
      → ((r : Row) → is_after key (some c) r ≡ true → is_after key cursor r ≡ true)
      → rows_after key (some c) (rows_after key cursor rs) ≡ rows_after key (some c) rs
  unfolding rows_after
  rows_after-rows_after cursor c [] h = refl
  rows_after-rows_after cursor c (r ∷ rs) h = elim (Bool-cases (is_after key cursor r)) [
    | inl here ↦ rw here (ground (arith, rows_after-rows_after cursor c rs h))
    | inr gone ↦ rw gone (ground (arith, rows_after-rows_after cursor c rs h, h r))
  ]

  -- The pages from a cursor on, each asked for with the cursor of the one before.
  unfoldable pub walk : ℕ → Option ℕ → ℕ → List Row → List Row
  walk zero cursor size table = (query_keyset key cursor size table).0
  walk (suc fuel) cursor size table = elim (query_keyset key cursor size table).1 [
    | none ↦ (query_keyset key cursor size table).0
    | some c ↦ (query_keyset key cursor size table).0 ++ walk fuel (some c) size table
  ]

  rows_after-All :
      (n : ℕ) (cursor : Option ℕ) (rs : List Row)
      → All (λ r. n < key r) rs
      → All (λ r. n < key r) (rows_after key cursor rs)
  unfolding rows_after
  rows_after-All n cursor [] h = tt
  rows_after-All n cursor (r ∷ rs) h = elim (Bool-cases (is_after key cursor r)) [
    | inl here ↦ rw here (h.0, rows_after-All n cursor rs h.1)
    | inr gone ↦ rw gone (rows_after-All n cursor rs h.1)
  ]

  rows_after-Ascending :
      (cursor : Option ℕ) (rs : List Row)
      → Ascending key rs
      → Ascending key (rows_after key cursor rs)
  unfolding rows_after
  rows_after-Ascending cursor [] up = tt
  rows_after-Ascending cursor (r ∷ rs) up = elim (Bool-cases (is_after key cursor r)) [
    | inl here ↦
        rw here (rows_after-All (key r) cursor rs up.0, rows_after-Ascending cursor rs up.1)
    | inr gone ↦ rw gone (rows_after-Ascending cursor rs up.1)
  ]

  -- Every row of a page is beyond the cursor.
  key_at-rows_after :
      (d c i : ℕ) (rs : List Row) → key_at key (rows_after key (some d) rs) i ≡ some c → d < c
  unfolding rows_after
  key_at-rows_after d c i [] e = cc
  key_at-rows_after d c i (r ∷ rs) e = elim (Bool-cases (is_after key (some d) r)) [
    | inr gone ↦ key_at-rows_after d c i rs (rw gone at e)
    | inl here ↦ first here i (rw here at e) (λ j. key_at-rows_after d c j rs)
  ]
    where
      first :
          is_after key (some d) r ≡ true
          → (i : ℕ) → key_at key (r ∷ rows_after key (some d) rs) i ≡ some c
          → ((j : ℕ) → key_at key (rows_after key (some d) rs) j ≡ some c → d < c)
          → d < c
      first past zero e later = ground (arith, past, e)
      first past (suc j) e later = later j e

  key_at-take :
      (n i : ℕ) (rs : List Row)
      → i < n
      → n ≤ length rs
      → (c : ℕ) × (key_at key (take n rs) i ≡ some c) × (key_at key rs i ≡ some c)
  key_at-take n i [] lt le = absurd (omega arith)
  key_at-take zero i (r ∷ rs) lt le = absurd (omega arith)
  key_at-take (suc n) zero (r ∷ rs) lt le = (key r, refl, refl)
  key_at-take (suc n) (suc i) (r ∷ rs) lt le = key_at-take n i rs (omega arith) (omega arith)

  -- The last page, and a page that is not the last.
  query_keyset_cases :
      (cursor : Option ℕ) (size : ℕ) (table : List Row)
      → Ascending key table
      → let rest = rows_after key cursor table in
        let n = size_or_default size in
        (query_keyset key cursor size table ≡ (rest, none))
        ⊎ ((c : ℕ) × (query_keyset key cursor size table ≡ (take n rest, some c))
            × (rows_after key (some c) table ≡ drop n rest)
            × (n < length rest))
  unfolding query_keyset
  query_keyset_cases cursor size table up =
      let rest = rows_after key cursor table in
      let n = size_or_default size in
      elim (Bool-cases (ltb n (length (take (suc n) rest)))) [
        | inr last ↦
            let short : length rest ≤ n = length-take_ge n rest (ground arith) in
            inl (
              rw (last, query_keyset)
                (ap (λ (t : List Row). (t, none)) (take_all (suc n) rest (omega arith))))
        | inl more ↦
            let long : n < length rest = length-take_lt n rest (ground arith) in
            let big : 0 < n = ground arith in
            let (c, e, at) = key_at-take (suc n) (n - 1) rest (omega arith) (omega arith) in
            let same : suc (n - 1) ≡ n = omega arith in
            let next : rows_after key (some c) table ≡ drop n rest =
              sym (rows_after-rows_after cursor c table (beyond cursor c at))
              ∙ (rows_after_row rest (n - 1) c (rows_after-Ascending cursor table up) at
                  ∙ ap (λ (m : ℕ). drop m rest) same) in
            inr (
              c,
              rw (more, query_keyset)
                  (ap (λ (x : Option ℕ). (take n (take (suc n) rest), x)) e
                    ∙ ap (λ (t : List Row). (t, some c)) (take-take-suc n rest)),
              next,
              long,
            )
      ]
    where
      beyond :
          (cur : Option ℕ) (c : ℕ)
          → key_at key (rows_after key cur table) (size_or_default size - 1) ≡ some c
          → (r : Row) → is_after key (some c) r ≡ true
          → is_after key cur r ≡ true
      beyond none c at r h = refl
      beyond (some d) c at r h =
          ground (arith, h, key_at-rows_after d c (size_or_default size - 1) table at)

  walk_from :
      (fuel : ℕ) (cursor : Option ℕ) (size : ℕ) (table : List Row)
      → Ascending key table
      → length (rows_after key cursor table) ≤ fuel
      → walk fuel cursor size table ≡ rows_after key cursor table
  unfolding walk
  walk_from zero cursor size table up enough = elim (query_keyset_cases cursor size table up) [
    | inl last ↦ ap (λ p. p.0) last
    | inr (c, page, next, long) ↦ absurd (omega (arith, long, enough))
  ]
  walk_from (suc fuel) cursor size table up enough =
      elim (query_keyset_cases cursor size table up) [
        | inl last ↦ rw (ap (λ p. p.1) last, walk) (ap (λ p. p.0) last)
        | inr (c, page, next, long) ↦
            let rest = rows_after key cursor table in
            let n = size_or_default size in
            let big : 0 < n = ground arith in
            let fewer : length (rows_after key (some c) table) ≤ fuel =
              omega (arith, ap length next, length-drop n rest, enough, big) in
            rw (ap (λ p. p.1) page, walk)
              (ap (λ p. p.0 ++ walk fuel (some c) size table) page
                ∙ (ap (λ (t : List Row). take n rest ++ t)
                      (walk_from fuel (some c) size table up fewer ∙ next)
                    ∙ take-append-drop n rest))
      ]

  -- Over a table with distinct values in the ordering column, following the cursors gives every row
  -- exactly once and in order, whatever the page size; one page more than there are rows is enough.
  pub walk_all :
      (size : ℕ) (table : List Row)
      → Ascending key table
      → walk (length table) none size table ≡ table
  walk_all size table up =
      walk_from (length table) none size table up (omega (arith, ap length (after_none table)))
      ∙ after_none table
