-- ===== src/Jobs/Postgres/Limited.antt =====
-- runtime/async_store_pg.go: what a reap does where more jobs are due than its limit allows.
use sdk_api.Base.{
  ℕ, String, ◌≡◌, refl, sym, ap, ◌∙◌, ◌⊎◌, inl, inr, Bool, true, false, Option, some, List, arith,
  nat_eq, string_eq, if◌then◌else◌, Option-cases, Map, lookup, contains, IsMap,
}
use sdk_api.Jobs.Store.{status_eq, reaped}
use sdk_api.Jobs.Store.Wellformed.{map_found, reap_job}
use sdk_api.Jobs.Postgres
use sdk_api.Jobs.Postgres.{
  JobRow, PgJobStore, new_pg_job_store, inserted, is_past, is_expired, may_retry, is_spent,
  ids_where, change_rows, set_pending, set_failed, reap_pending, reap_spent, is_old_row, result_of,
  error_of, scanned, result_bytes, updated_row,
}
use sdk_api.Jobs.Postgres.Rows.{contains-ids_where, lookup-change_rows, change_rows-IsMap}
use sdk_api.Jobs.Postgres.Reaped.{IsLimit}

module _ {J : Type 0} (marshal : String → J) (unmarshal : J → Option String)
    (pick : List String → List String) (limit : IsLimit pick) (max_retries now : ℕ) where
  -- Two changes of one row, each of which was asked for by its test.
  scanned-two_changes :
      (c1 c2 : Bool) (id : String) (row : JobRow J)
      → (c1 ≡ true → may_retry max_retries now row ≡ true)
      → (c2 ≡ true → is_spent max_retries now (if c1 then set_pending now row else row) ≡ true)
      → let once = if c1 then set_pending now row else row in
        let twice = if c2 then set_failed now once else once in
        (scanned marshal unmarshal id twice ≡ scanned marshal unmarshal id row)
        ⊎ (scanned marshal unmarshal id twice
            ≡ reap_job max_retries now (scanned marshal unmarshal id row))
  unfolding scanned set_pending set_failed reaped
  scanned-two_changes true true id row first second = absurd (ground (arith, second refl))
  scanned-two_changes true false id row first second =
      inr (elim (Option-cases row.processing_deadline) [
        | inl nothing ↦ ground (arith, first refl, nothing)
        | inr (deadline, is) ↦ ground (arith, first refl, is)
      ])
  scanned-two_changes false true id row first second =
      inr (elim (Option-cases row.processing_deadline) [
        | inl nothing ↦ ground (arith, second refl, nothing)
        | inr (deadline, is) ↦ ground (arith, second refl, is)
      ])
  scanned-two_changes false false id row first second = inl refl

  picked-test :
      (test : JobRow J → Bool) (id : String) (rows : Map String (JobRow J)) (row : JobRow J)
      → IsMap rows
      → lookup id rows ≡ some row
      → contains (pick (ids_where test rows)) id ≡ true
      → test row ≡ true
  picked-test test id rows row h found picked =
      sym (rw found at (contains-ids_where test id rows h))
      ∙ limit.some_of (ids_where test rows) id picked

  -- Whichever jobs the limit of a reap leaves, and however many are due, each job is afterwards as
  -- it was before or as the reap of the store in memory makes it.
  pub get-reap_stale_any :
      (id : String) (s : PgJobStore J)
      → IsMap s.rows
      → let after =
          Postgres.get marshal unmarshal id (Postgres.reap_stale pick max_retries now s).0 in
        let before = Postgres.get marshal unmarshal id s in
        (after ≡ before) ⊎ (after ≡ map_found (reap_job max_retries now) before)
  unfolding Postgres.get Postgres.reap_stale reap_pending reap_spent
  get-reap_stale_any id s h =
      let ids = pick (ids_where (may_retry max_retries now) s.rows) in
      let once = (change_rows ids (set_pending now) s.rows).0 in
      let ids' = pick (ids_where (is_spent max_retries now) once) in
      let first = lookup-change_rows ids (set_pending now) id s.rows in
      let second = lookup-change_rows ids' (set_failed now) id once in
      elim (Option-cases (lookup id s.rows)) [
        | inl missing ↦ inl (ground (arith, first, second, missing))
        | inr (row, found) ↦
            let found' : lookup id once
                ≡ some (if contains ids id then set_pending now row else row) =
              first ∙ rw found refl in
            elim (scanned-two_changes (contains ids id) (contains ids' id) id row
              (picked-test (may_retry max_retries now) id s.rows row h found)
              (picked-test (is_spent max_retries now) id once _
                (change_rows-IsMap ids (set_pending now) s.rows h) found')) [
                  | inl same ↦ inl (rw (Postgres.get, second, found', found) (ap some same))
                  | inr changed ↦ inr (rw (Postgres.get, second, found', found) (ap some changed))
                ]
      ]
