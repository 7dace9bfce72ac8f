-- ===== src/Pagination/Pages.antt =====
-- db/pagination.go: QueryPaginated and QueryKeyset. The table is a parameter: the rows that meet the
-- other conditions, in the order of the query, and the value of each row in the column that orders
-- them. The values are taken to be numbers, whose text (%v) is never empty and is read back by the
-- database as that number, so a cursor is that number, and `none` stands for the empty cursor.
pub mod Slices
pub mod Walk
use sdk_api.Base.{
  ℕ, subst, zero, suc, ◌+◌, ◌-◌, ◌*◌, ◌≤◌, ◌<◌, ◌/◌, ◌%◌, ◌^◌, String, ◌≡◌, refl, sym, ap, ◌∙◌, ◌≢◌,
  ◌↔◌, ◌⊎◌, inl, inr, Bool, true, false, not, ◌&&◌, ◌||◌, Option, none, some, List, [], ◌∷◌, ◌++◌,
  map, arith, ltb, leb, nat_beq, nat_beq_iff, Eq, ◌==◌, ==_iff, nat_eq, string_eq, if◌then◌else◌,
  Bool-cases, Option-cases, is_some, length, get_elem?, set, take, length-append, length-set,
  get_elem?-append_last, get_elem?-append_left, get_elem?-set_ne, get_elem?-set_self, All, Map,
  lookup, insert, delete, lookup-insert, lookup-delete, contains, contains-cons_self,
  contains-cons_of_contains, contains-cons_cases, IsMap, retain, kept, insert-IsMap, delete-IsMap,
  lookup-retain, retain-IsMap,
}

abbrev pub drop {ℓ} : {A : Type ℓ} → ℕ → List A → List A
drop zero xs = xs
drop (suc n) [] = []
drop (suc n) (x ∷ xs) = drop n xs

abbrev pub int_modulus : ℕ
int_modulus = 2 ^ 64

-- The defaults of both queries; a number that is not positive is 0.
abbrev pub size_or_default : ℕ → ℕ
size_or_default size = if size == 0 then 10 else size

abbrev pub page_or_first : ℕ → ℕ
page_or_first page = if page == 0 then 1 else page

-- `(page - 1) * size`, a 64-bit int.
abbrev pub offset_of : ℕ → ℕ → ℕ
offset_of page size = ((page_or_first page - 1) * size_or_default size) % int_modulus

module _ {Row : Type 0} where
  -- `QueryPaginated`: the rows and their total; `none` where the offset is negative, which the
  -- database refuses.
  unfoldable pub query_paginated : ℕ → ℕ → List Row → Option (List Row × ℕ)
  query_paginated page size table =
      if leb (2 ^ 63) (offset_of page size)
      then none
      else some (take (size_or_default size) (drop (offset_of page size) table), length table)

module _ {Row : Type 0} (key : Row → ℕ) where
  -- `WHERE key > cursor`.
  abbrev pub is_after : Option ℕ → Row → Bool
  is_after none r = true
  is_after (some c) r = ltb c (key r)

  unfoldable pub rows_after : Option ℕ → List Row → List Row
  rows_after cursor [] = []
  rows_after cursor (r ∷ rs) =
      let rest = rows_after cursor rs in if is_after cursor r then r ∷ rest else rest

  abbrev key_at : List Row → ℕ → Option ℕ
  key_at rs i = elim (get_elem? rs i) [ none ↦ none | some r ↦ some (key r) ]

  -- `QueryKeyset`: it asks for one row more than the page holds, and the cursor of the next page is
  -- that of the last row of this one.
  unfoldable pub query_keyset : Option ℕ → ℕ → List Row → List Row × Option ℕ
  query_keyset cursor size table =
      let n = size_or_default size in
      let result = take (suc n) (rows_after cursor table) in
      if ltb n (length result) then (take n result, key_at result (n - 1)) else (result, none)
