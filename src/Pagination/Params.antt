-- ===== src/Pagination/Params.antt =====
-- runtime/pagination.go: ParseListParams. The query arguments of a request are a map, each name given
-- once; white space is that of ASCII.
use sdk_api.Base.{
  ℕ, subst, zero, suc, ◌+◌, ◌-◌, ◌*◌, ◌≤◌, ◌^◌, String, ◌≡◌, refl, ◌≢◌, ◌⊎◌, inl, inr, Bool, true,
  not, ◌&&◌, ◌||◌, Option, none, some, List, [], ◌∷◌, arith, ltb, leb, ◌==◌, ==_iff, nat_eq,
  string_eq, if◌then◌else◌, Bool-cases, Option-cases, length, Map, lookup, contains, retain,
}
use sdk_api.Base.Bytes.{Bytes, bytes_eq, codes}

-- An int of Go.
pub data ℤ : Type 0 where
  pos negsuc : ℕ → ℤ

-- `c.Query(key, def)`: a missing or empty argument gives the default.
unfoldable pub query : Map String Bytes → String → Bytes → Bytes
query args k def = elim (lookup k args) [ none ↦ def | some v ↦ if v == [] then def else v ]

abbrev is_blank : ℕ → Bool
is_blank c = c == 32 || (leb 9 c && leb c 13)

unfoldable pub skip_blanks : Bytes → Bytes
skip_blanks [] = []
skip_blanks (c ∷ s) = if is_blank c then skip_blanks s else c ∷ s

-- The digits up to the blanks at the end; `none` on anything else.
unfoldable pub digits_from : ℕ → Bytes → Option ℕ
digits_from n [] = some n
digits_from n (c ∷ s) =
    let longer = digits_from (n * 10 + (c - 48)) s in
    if leb 48 c && leb c 57
    then longer
    else if is_blank c && skip_blanks s == []
    then some n
    else none

-- At least one digit.
abbrev digits : Bytes → Option ℕ
digits [] = none
digits (c ∷ s) = if leb 48 c && leb c 57 then digits_from 0 (c ∷ s) else none

abbrev int_bound : ℕ
int_bound = 2 ^ 63

abbrev positive : Option ℕ → Option ℤ
positive none = none
positive (some n) = if ltb n int_bound then some (pos n) else none

abbrev negative : Option ℕ → Option ℤ
negative none = none
negative (some zero) = some (pos 0)
negative (some (suc n)) = if ltb n int_bound then some (negsuc n) else none

-- strconv.Atoi of the trimmed text.
unfoldable pub parse_int : Bytes → Option ℤ
parse_int [] = none
parse_int (c ∷ s) =
    if c == b'-'
    then negative (digits s)
    else if c == b'+'
    then positive (digits s)
    else positive (digits (c ∷ s))

-- `queryInt`.
unfoldable pub query_int : Map String Bytes → String → ℕ → ℤ
query_int args k def = elim (parse_int (skip_blanks (query args k []))) [
  | none ↦ pos def
  | some n ↦ n
]

-- `max(z, n)`, for an `n` that is not negative.
abbrev pub at_least : ℕ → ℤ → ℕ
at_least n (pos m) = if ltb m n then n else m
at_least n (negsuc m) = n

abbrev pub at_most : ℕ → ℕ → ℕ
at_most n m = if ltb n m then n else m

pub record ListParams : Type 0 where
  pub page : ℕ
  pub size : ℕ
  pub sort : Bytes
  pub filters : Map String Bytes
  pub cursor : Bytes
  pub pagination : String

-- The sizes after the defaults; a size that is not positive is 0 here.
abbrev pub page_size_of : ℕ → ℕ
page_size_of page_size = if page_size == 0 then 10 else page_size

abbrev pub max_size_of : ℕ → ℕ → ℕ
max_size_of page_size max_page_size =
    let most = if max_page_size == 0 then 100 else max_page_size in
    if ltb most (page_size_of page_size) then page_size_of page_size else most

abbrev pub is_reserved : String → Bool
is_reserved k = k == "page" || k == "size" || k == "sort" || k == "cursor"

-- The parameters that ParseListParams gives, where the sort is allowed.
abbrev list_params : Map String Bytes → (page_size max_page_size : ℕ) → String → ListParams
list_params args page_size max_page_size pagination = record {
  page = at_least 1 (query_int args "page" 1);
  size =
      at_most (max_size_of page_size max_page_size)
        (at_least (page_size_of page_size) (query_int args "size" (page_size_of page_size)));
  sort = query args "sort" (codes "id");
  filters = retain (λ k v. not (is_reserved k)) args;
  cursor = query args "cursor" [];
  pagination = if pagination == "" then "offset" else pagination;
}

-- `ParseListParams`; `none` where the sort is not allowed.
unfoldable pub parse_list_params :
    Map String Bytes → (page_size max_page_size : ℕ) → List Bytes → String → Option ListParams
parse_list_params args page_size max_page_size sortable pagination =
    if ltb 0 (length sortable) && not (contains sortable (query args "sort" (codes "id")))
    then none
    else some (list_params args page_size max_page_size pagination)

lookup-retain_keys :
    (keep : String → Bool) (k : String) (args : Map String Bytes)
    → lookup k (retain (λ j v. keep j) args) ≡ (if keep k then lookup k args else none)
unfolding lookup retain
lookup-retain_keys keep k [] = ground arith
lookup-retain_keys keep k ((j, v) ∷ args) = elim (Bool-cases (j == k)) [
  | inl same ↦
      let is : j ≡ k = (==_iff j k).0 same in
      rw is (ground (arith, ==_iff k k, lookup-retain_keys keep k args))
  | inr other ↦ ground (arith, lookup-retain_keys keep k args)
]

at_least_bound : (n : ℕ) (z : ℤ) → n ≤ at_least n z
at_least_bound n (pos m) = ground arith
at_least_bound n (negsuc m) = omega arith

query-nonempty :
    (args : Map String Bytes) (k : String) (c : ℕ) (def : Bytes) → query args k (c ∷ def) ≢ []
unfolding query
query-nonempty args k c def e = elim (Option-cases (lookup k args)) [
  | inl missing ↦ ground arith
  | inr (v, found) ↦ ground (arith, ==_iff v [])
]

-- Whatever a request asks for, the parameters are in range: the page is at least 1, the size lies
-- between the page size and the maximum, the sort is one that is allowed and not empty, and the
-- filters are the arguments whose names are not reserved.
pub parse_list_params_bounds :
    (args : Map String Bytes) (page_size max_page_size : ℕ) (sortable : List Bytes)
    (pagination : String) (p : ListParams)
    → parse_list_params args page_size max_page_size sortable pagination ≡ some p
    → (1 ≤ p.page)
      × (page_size_of page_size ≤ p.size)
      × (p.size ≤ max_size_of page_size max_page_size)
      × ((sortable ≡ []) ⊎ (contains sortable p.sort ≡ true))
      × (p.sort ≢ [])
      × ((k : String) → lookup k p.filters ≡ (if not (is_reserved k) then lookup k args else none))
unfolding parse_list_params
parse_list_params_bounds args page_size max_page_size sortable pagination p e =
    let q = list_params args page_size max_page_size pagination in
    let is : q ≡ p = ground arith in
    let allowed : (sortable ≡ []) ⊎ (contains sortable q.sort ≡ true) = sort_allowed sortable e in
    let least = page_size_of page_size in
    let size = at_least_bound least (query_int args "size" least) in
    subst
      (λ (r : ListParams).
        (1 ≤ r.page)
        × (page_size_of page_size ≤ r.size)
        × (r.size ≤ max_size_of page_size max_page_size)
        × ((sortable ≡ []) ⊎ (contains sortable r.sort ≡ true))
        × (r.sort ≢ [])
        × ((k : String)
            → lookup k r.filters ≡ (if not (is_reserved k) then lookup k args else none)))
      is
      (
        at_least_bound 1 (query_int args "page" 1),
        ground (arith, size),
        ground (arith, size),
        allowed,
        query-nonempty args "sort" b'i' (codes "d"),
        λ k. lookup-retain_keys (λ j. not (is_reserved j)) k args,
      )
  where
    sort_allowed :
        (names : List Bytes)
        → parse_list_params args page_size max_page_size names pagination ≡ some p
        → (names ≡ []) ⊎ (contains names (query args "sort" (codes "id")) ≡ true)
    sort_allowed [] ok = inl refl
    sort_allowed (n ∷ names) ok =
        elim (Bool-cases (contains (n ∷ names) (query args "sort" (codes "id")))) [
          | inl listed ↦ inr listed
          | inr missing ↦ absurd (ground arith)
        ]
