-- ===== src/Migrations/Runner/Applied.antt =====
-- db/migrations.go: what the control table says after Up.
use sdk_api.Base.{
  ℕ, subst, ◌≡◌, refl, sym, ap, ◌∙◌, ◌⊎◌, inl, inr, none, some, List, [], ◌∷◌, ◌++◌, arith, ◌==◌,
  ==_iff, nat_eq, string_eq, Bool-cases, Option-cases, All, Map, lookup, lookup-insert,
}
use sdk_api.Base.Bytes.{Bytes, bytes_eq}
use sdk_api.Migrations.Statements.{split_statements}
use sdk_api.Migrations.Files.{Migration}
use sdk_api.Migrations.Runner.{
  External, Failure, changed, Db, run_statements, record_version, apply_one, Run, up_from,
  failed_first, up,
}

module _ (ext : External) where
  -- Every migration of the list is recorded with the checksum of its file.
  abbrev pub Recorded : List Migration → Map ℕ Bytes → Type 0
  Recorded ms table = All (λ m. lookup m.version table ≡ some m.checksum) ms

  -- No row of the table is lost or changed.
  abbrev pub Grows : Map ℕ Bytes → Map ℕ Bytes → Type 0
  Grows table table' =
      (v : ℕ) (sum : Bytes) → lookup v table ≡ some sum → lookup v table' ≡ some sum

  record_version-Grows :
      (m : Migration) (sc : ext.Schema) (db : Db ext)
      → Grows db.table (record_version ext m sc db).0.table
  unfolding record_version
  record_version-Grows m sc db v sum e =
      ground (arith, lookup-insert m.version v m.checksum db.table, ==_iff m.version v)

  apply_one-Grows : (m : Migration) (db : Db ext) → Grows db.table (apply_one ext m db).0.table
  unfolding apply_one
  apply_one-Grows m db v sum e =
      elim (Option-cases (run_statements ext (split_statements m.sql) db.schema)) [
        | inl failed ↦ ground arith
        | inr (sc, ran) ↦ ground (arith, record_version-Grows m sc db v sum e)
      ]

  record_version-Recorded :
      (m : Migration) (sc : ext.Schema) (db : Db ext)
      → (record_version ext m sc db).1 ≡ none
      → lookup m.version (record_version ext m sc db).0.table ≡ some m.checksum
  unfolding record_version
  record_version-Recorded m sc db e =
      ground
        (arith, lookup-insert m.version m.version m.checksum db.table, ==_iff m.version m.version)

  apply_one-Recorded :
      (m : Migration) (db : Db ext)
      → (apply_one ext m db).1 ≡ none
      → lookup m.version (apply_one ext m db).0.table ≡ some m.checksum
  unfolding apply_one
  apply_one-Recorded m db e =
      elim (Option-cases (run_statements ext (split_statements m.sql) db.schema)) [
        | inl failed ↦ ground arith
        | inr (sc, ran) ↦ ground (arith, record_version-Recorded m sc db)
      ]

  -- A round of the loop: the migration is passed over, applied, or the loop ends with an error.
  up_from_cases :
      (applied : Map ℕ Bytes) (m : Migration) (ms : List Migration) (db : Db ext) (so_far : List ℕ)
      → ((lookup m.version applied ≡ some m.checksum)
          × (up_from ext applied (m ∷ ms) db so_far ≡ up_from ext applied ms db so_far))
        ⊎ ((lookup m.version applied ≡ none)
            × ((apply_one ext m db).1 ≡ none)
            × (up_from ext applied (m ∷ ms) db so_far
                ≡ up_from ext applied ms (apply_one ext m db).0 (so_far ++ m.version ∷ [])))
        ⊎ ((failure : Failure) × ((up_from ext applied (m ∷ ms) db so_far).error ≡ some failure))
  unfolding up_from
  up_from_cases applied m ms db so_far = elim (Option-cases (lookup m.version applied)) [
    | inr (sum, found) ↦ elim (Bool-cases (sum == m.checksum)) [
      | inl same ↦
          inl (found ∙ ap some ((==_iff sum m.checksum).0 same), rw (found, up_from) (rw same refl))
      | inr differs ↦ inr (inr (changed m.version, rw (found, up_from) (rw differs refl)))
    ]
    | inl missing ↦ elim (Option-cases (apply_one ext m db).1) [
      | inr (failure, failed) ↦ inr (inr (failure, rw (missing, up_from) (rw failed refl)))
      | inl done ↦ inr (inl (missing, done, rw (missing, up_from) (rw done refl)))
    ]
  ]

  abbrev Done : List Migration → Db ext → Run ext → Type 0
  Done ms db r = Grows db.table r.db.table × Recorded ms r.db.table

  -- The loop, where what was read at the beginning still stands in the table.
  up_from-Recorded :
      (applied : Map ℕ Bytes) (ms : List Migration) (db : Db ext) (so_far : List ℕ)
      → Grows applied db.table
      → (up_from ext applied ms db so_far).error ≡ none
      → Done ms db (up_from ext applied ms db so_far)
  up_from-Recorded applied [] db so_far held ok = unfold up_from in ((λ v sum e. e), tt)
  up_from-Recorded applied (m ∷ ms) db so_far held ok =
      elim (up_from_cases applied m ms db so_far) [
        | inl (found, same) ↦
            let (grows, recorded) = up_from-Recorded applied ms db so_far held (rw same at ok) in
            subst (Done (m ∷ ms) db) (sym same)
              (grows, (grows m.version m.checksum (held m.version m.checksum found), recorded))
        | inr (inl (pending, done, same)) ↦
            let db' = (apply_one ext m db).0 in
            let step = apply_one-Grows m db in
            let (grows, recorded) =
              up_from-Recorded applied ms db' (so_far ++ m.version ∷ [])
                (λ v sum e. step v sum (held v sum e)) (rw same at ok) in
            subst (Done (m ∷ ms) db) (sym same) (
              (λ v sum e. grows v sum (step v sum e)),
              (grows m.version m.checksum (apply_one-Recorded m db done), recorded),
            )
        | inr (inr (failure, failed)) ↦ absurd (ground (arith, ok, failed))
      ]

  up_cases :
      (ms : List Migration) (db : Db ext)
      → ((failed_first ext ≡ none) × (up ext ms db ≡ up_from ext db.table ms db []))
        ⊎ ((failure : Failure) × (failed_first ext ≡ some failure)
            × ((up ext ms db).error ≡ some failure))
  unfolding up
  up_cases ms db = elim (Option-cases (failed_first ext)) [
    | inl fine ↦ inl (fine, rw (fine, up) refl)
    | inr (failure, failed) ↦ inr (failure, failed, rw (failed, up) refl)
  ]

  -- Where Up reports no error, every loaded migration is recorded with the checksum of its file,
  -- and no row that the control table held before is lost or changed.
  pub up-Recorded :
      (ms : List Migration) (db : Db ext)
      → (up ext ms db).error ≡ none
      → Recorded ms (up ext ms db).db.table × Grows db.table (up ext ms db).db.table
  up-Recorded ms db ok = elim (up_cases ms db) [
    | inl (fine, same) ↦
        let (grows, recorded) = up_from-Recorded db.table ms db [] (λ v sum e. e) (rw same at ok) in
        subst (λ (r : Run ext). Recorded ms r.db.table × Grows db.table r.db.table) (sym same)
          (recorded, grows)
    | inr (failure, first, failed) ↦ absurd (ground (arith, ok, failed))
  ]

  up_from_of_Recorded :
      (ms : List Migration) (applied : Map ℕ Bytes) (db : Db ext) (so_far : List ℕ)
      → Recorded ms applied
      → up_from ext applied ms db so_far ≡ record { db = db; versions = so_far; error = none }
  unfolding up_from
  up_from_of_Recorded [] applied db so_far h = refl
  up_from_of_Recorded (m ∷ ms) applied db so_far (found, h) =
      rw (found, up_from)
        (ground (arith, ==_iff m.checksum m.checksum, up_from_of_Recorded ms applied db so_far h))

  -- A second Up after one without an error applies nothing and leaves the database as it is.
  pub up-up :
      (ms : List Migration) (db : Db ext)
      → (up ext ms db).error ≡ none
      → up ext ms (up ext ms db).db ≡ record { db = (up ext ms db).db; versions = []; error = none }
  up-up ms db ok =
      let (recorded, grows) = up-Recorded ms db ok in
      elim (up_cases ms (up ext ms db).db) [
        | inl (fine, same) ↦
            same ∙ up_from_of_Recorded ms (up ext ms db).db.table (up ext ms db).db [] recorded
        | inr (failure, first, failed) ↦ elim (up_cases ms db) [
          | inl (fine, same) ↦ absurd (ground (arith, fine, first))
          | inr (f, g, h) ↦ absurd (ground (arith, ok, h))
        ]
      ]
