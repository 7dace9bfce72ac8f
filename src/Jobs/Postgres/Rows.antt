-- ===== src/Jobs/Postgres/Rows.antt =====
-- runtime/async_store_pg.go: what Get answers after each operation.
use sdk_api.Base.{
  String, ◌≡◌, refl, inl, inr, Bool, false, Option, none, some, List, [], ◌∷◌, arith, ◌==◌, ==_iff,
  nat_eq, string_eq, if◌then◌else◌, Bool-cases, Map, lookup, contains, IsMap,
}
use sdk_api.Jobs.Store.{status_eq}
use sdk_api.Jobs.Store.Wellformed.{map_found}
use sdk_api.Jobs.Postgres.{JobRow, ids_where, change_rows}

module _ {J : Type 0} where
  -- A test of the row that was found.
  abbrev pub found_where : (JobRow J → Bool) → Option (JobRow J) → Bool
  found_where test none = false
  found_where test (some row) = test row

  pub contains-ids_where :
      (test : JobRow J → Bool) (id : String) (rows : Map String (JobRow J))
      → IsMap rows
      → contains (ids_where test rows) id ≡ found_where test (lookup id rows)
  unfolding contains ids_where lookup
  contains-ids_where test id [] h = refl
  contains-ids_where test id ((j, row) ∷ rows) h = elim (Bool-cases (j == id)) [
    | inl same ↦
        let e : j ≡ id = (==_iff j id).0 same in
        let absent : lookup id rows ≡ none = rw e at h.0 in
        let rest = contains-ids_where test id rows h.1 in rw e (ground (arith, ==_iff id id))
    | inr other ↦ ground (arith, contains-ids_where test id rows)
  ]

  pub lookup-change_rows :
      (ids : List String) (change : JobRow J → JobRow J) (id : String)
      (rows : Map String (JobRow J))
      → lookup id (change_rows ids change rows).0
        ≡ map_found (λ row. if contains ids id then change row else row) (lookup id rows)
  unfolding change_rows lookup
  lookup-change_rows ids change id [] = refl
  lookup-change_rows ids change id ((j, row) ∷ rows) =
      ground (arith, lookup-change_rows ids change id rows, ==_iff j id)

  pub change_rows-IsMap :
      (ids : List String) (change : JobRow J → JobRow J) (rows : Map String (JobRow J))
      → IsMap rows
      → IsMap (change_rows ids change rows).0
  unfolding change_rows
  change_rows-IsMap ids change [] h = tt
  change_rows-IsMap ids change ((id, row) ∷ rows) h =
      ground (arith, change_rows-IsMap ids change rows, lookup-change_rows ids change id rows)
