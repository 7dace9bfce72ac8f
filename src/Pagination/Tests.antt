-- ===== src/Pagination/Tests.antt =====
-- runtime/pagination.go and db/pagination.go on concrete requests and tables.
use sdk_api.Base.{
  ℕ, ◌≤◌, String, ◌≡◌, refl, ◌≢◌, ◌⊎◌, true, not, none, some, List, [], ◌∷◌, arith, nat_eq,
  string_eq, if◌then◌else◌, Map, lookup, contains, retain,
}
use sdk_api.Base.Bytes.{Bytes, bytes_eq, codes}
use sdk_api.Pagination.Params.{
  ListParams, query, skip_blanks, digits_from, parse_int, query_int, page_size_of, max_size_of,
  is_reserved, parse_list_params, parse_list_params_bounds,
}
use sdk_api.Pagination.Pages.{rows_after, query_keyset, query_paginated}
use sdk_api.Pagination.Pages.Walk.{Ascending, walk, walk_all}

abbrev args : Map String Bytes
args =
    ("page", codes "-3")
    ∷ ("size", codes " 25 ")
    ∷ ("sort", codes "name")
    ∷ ("team", codes "x")
    ∷ []

abbrev sortable : List Bytes
sortable = codes "id" ∷ codes "name" ∷ []

abbrev parsed : ListParams
parsed = record {
  page = 1;
  size = 25;
  sort = codes "name";
  filters = ("team", codes "x") ∷ [];
  cursor = [];
  pagination = "offset";
}

parse_test : parse_list_params args 0 0 sortable "" ≡ some parsed
unfolding parse_list_params query_int parse_int digits_from skip_blanks query lookup contains retain
parse_test = refl

parse_list_params_bounds_example :
    (1 ≤ parsed.page)
    × (page_size_of 0 ≤ parsed.size)
    × (parsed.size ≤ max_size_of 0 0)
    × ((sortable ≡ []) ⊎ (contains sortable parsed.sort ≡ true))
    × (parsed.sort ≢ [])
    × ((k : String)
        → lookup k parsed.filters ≡ (if not (is_reserved k) then lookup k args else none))
parse_list_params_bounds_example = parse_list_params_bounds args 0 0 sortable "" parsed parse_test

abbrev itself : ℕ → ℕ
itself n = n

abbrev five : List ℕ
five = 2 ∷ 3 ∷ 5 ∷ 7 ∷ 11 ∷ []

five-Ascending : Ascending itself five
five-Ascending = ground arith

walk_all_example : walk itself 5 none 2 five ≡ five
walk_all_example = walk_all itself 2 five five-Ascending

-- Where two rows have one value in the ordering column, the page that ends between them hides the
-- second.
hides_equal :
    (query_keyset itself none 2 (1 ∷ 2 ∷ 2 ∷ 3 ∷ []) ≡ (1 ∷ 2 ∷ [], some 2))
    × (query_keyset itself (some 2) 2 (1 ∷ 2 ∷ 2 ∷ 3 ∷ []) ≡ (3 ∷ [], none))
unfolding query_keyset rows_after
hides_equal = (refl, refl)

third_page : query_paginated 3 2 five ≡ some (11 ∷ [], 5)
unfolding query_paginated
third_page = refl
