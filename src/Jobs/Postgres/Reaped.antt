-- ===== src/Jobs/Postgres/Reaped.antt =====
-- runtime/async_store_pg.go: what a reap makes of each row.
use sdk_api.Base.{
  ℕ, ◌≤◌, String, ◌≡◌, refl, sym, ap, ◌∙◌, ◌≢◌, inl, inr, Bool, true, Option, some, List, arith,
  nat_eq, string_eq, if◌then◌else◌, Bool-cases, Option-cases, length, Map, lookup, contains, IsMap,
}
use sdk_api.Jobs.Store.{status_eq, JobState, reaped}
use sdk_api.Jobs.Store.Wellformed.{map_found, reap_job}
use sdk_api.Jobs.Postgres
use sdk_api.Jobs.Postgres.{
  JobRow, PgJobStore, new_pg_job_store, inserted, is_past, is_expired, may_retry, is_spent,
  ids_where, change_rows, set_pending, set_failed, reap_pending, reap_spent, is_old_row, result_of,
  error_of, scanned, result_bytes, updated_row,
}
use sdk_api.Jobs.Postgres.Rows.{contains-ids_where, lookup-change_rows, change_rows-IsMap}

-- What LIMIT 100 leaves: some of the ids, and all of them where there are at most a hundred.
pub record IsLimit (pick : List String → List String) : Type 0 where
  pub some_of :
      (ids : List String) (id : String) → contains (pick ids) id ≡ true → contains ids id ≡ true
  pub all_of :
      (ids : List String) (id : String)
      → length ids ≤ 100
      → contains ids id ≡ true
      → contains (pick ids) id ≡ true

module _ {J : Type 0} where
  -- No more than the limit allows are due, for each of the two statements of a reap.
  abbrev pub FewDue :
      (pick : List String → List String) (max_retries now : ℕ) → PgJobStore J → Type 0
  FewDue pick max_retries now s =
      (length (ids_where (may_retry max_retries now) s.rows) ≤ 100)
      × (length (ids_where (is_spent max_retries now) (reap_pending pick max_retries now s).0.rows)
          ≤ 100)

  -- The two statements, on one row.
  reap_row : (max_retries now : ℕ) → JobRow J → JobRow J
  reap_row max_retries now row =
      let once = if may_retry max_retries now row then set_pending now row else row in
      if is_spent max_retries now once then set_failed now once else once

module _ (pick : List String → List String) (limit : IsLimit pick) {J : Type 0} where
  -- Where the limit does not bind, the rows that pass the test are changed.
  lookup-change_picked :
      (test : JobRow J → Bool) (change : JobRow J → JobRow J) (id : String)
      (rows : Map String (JobRow J))
      → IsMap rows
      → length (ids_where test rows) ≤ 100
      → lookup id (change_rows (pick (ids_where test rows)) change rows).0
        ≡ map_found (λ row. if test row then change row else row) (lookup id rows)
  lookup-change_picked test change id rows h few =
      let ids = ids_where test rows in
      let picked : contains (pick ids) id ≡ contains ids id = elim (Bool-cases (contains ids id)) [
        | inl member ↦ limit.all_of ids id few member ∙ sym member
        | inr other ↦ elim (Bool-cases (contains (pick ids) id)) [
          | inl member ↦ absurd (ground (arith, limit.some_of ids id member, other))
          | inr none_ ↦ none_ ∙ sym other
        ]
      ] in
      lookup-change_rows (pick ids) change id rows
      ∙ rw (picked, contains-ids_where test id rows h)
          (elim (Option-cases (lookup id rows)) [
            | inl missing ↦ rw missing refl
            | inr (row, found) ↦ rw found refl
          ])

  module _ (max_retries now : ℕ) where
    pub reap_stale-IsMap :
        (s : PgJobStore J)
        → IsMap s.rows
        → IsMap (Postgres.reap_stale pick max_retries now s).0.rows
    unfolding Postgres.reap_stale reap_pending reap_spent
    reap_stale-IsMap s h =
        change_rows-IsMap _ (set_failed now) _ (change_rows-IsMap _ (set_pending now) s.rows h)

    lookup-reap_stale :
        (s : PgJobStore J) (id : String)
        → IsMap s.rows
        → FewDue pick max_retries now s
        → lookup id (Postgres.reap_stale pick max_retries now s).0.rows
          ≡ map_found (reap_row max_retries now) (lookup id s.rows)
    unfolding Postgres.reap_stale reap_pending reap_spent reap_row
    lookup-reap_stale s id h few =
        let ids = pick (ids_where (may_retry max_retries now) s.rows) in
        let first =
          lookup-change_picked (may_retry max_retries now) (set_pending now) id s.rows h few.0 in
        lookup-change_picked (is_spent max_retries now) (set_failed now) id _
          (change_rows-IsMap ids (set_pending now) s.rows h) few.1
        ∙ rw first (elim (Option-cases (lookup id s.rows)) [
          | inl missing ↦ rw missing refl
          | inr (row, found) ↦ rw found refl
        ])

module _ {J : Type 0} (marshal : String → J) (unmarshal : J → Option String) where
  -- A deadline that is reached is not yet past.
  scanned-reap_row :
      (max_retries now : ℕ) (id : String) (row : JobRow J)
      → row.processing_deadline ≢ some now
      → scanned marshal unmarshal id (reap_row max_retries now row)
        ≡ reap_job max_retries now (scanned marshal unmarshal id row)
  unfolding scanned reap_row set_pending set_failed reaped
  scanned-reap_row max_retries now id row apart = elim (Option-cases row.processing_deadline) [
    | inl nothing ↦ ground (arith, nothing)
    | inr (deadline, is) ↦
        let later : deadline ≢ now = λ e. apart (is ∙ ap some e) in ground (arith, is, later)
  ]

  pub get-reap_stale_few :
      (pick : List String → List String) (max_retries now : ℕ) (s : PgJobStore J) (id : String)
      → IsLimit pick
      → IsMap s.rows
      → FewDue pick max_retries now s
      → ((js : JobState)
          → Postgres.get marshal unmarshal id s ≡ some js
          → js.processing_deadline ≢ some now)
      → Postgres.get marshal unmarshal id (Postgres.reap_stale pick max_retries now s).0
        ≡ map_found (reap_job max_retries now) (Postgres.get marshal unmarshal id s)
  unfolding Postgres.get scanned
  get-reap_stale_few pick max_retries now s id limit h few apart =
      rw (Postgres.get, lookup-reap_stale pick limit max_retries now s id h few)
        (elim (Option-cases (lookup id s.rows)) [
          | inl missing ↦ rw (Postgres.get, missing) refl
          | inr (row, found) ↦
              rw (Postgres.get, found)
                (ap some (
                  scanned-reap_row max_retries now id row
                    (apart (scanned marshal unmarshal id row) (rw (Postgres.get, found) refl))))
        ])
