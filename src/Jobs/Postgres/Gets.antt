-- ===== src/Jobs/Postgres/Gets.antt =====
-- runtime/async_store_pg.go: what Create and Update make of each job.
use sdk_api.Base.{
  ℕ, ◌+◌, String, ◌≡◌, refl, sym, ap, ◌∙◌, inl, inr, Option, none, some, arith, ◌==◌, ==_iff,
  nat_eq, string_eq, if◌then◌else◌, Bool-cases, Option-cases, lookup, insert, lookup-insert, IsMap,
  insert-IsMap,
}
use sdk_api.Jobs.Store.{JobStatus, status_eq, updated}
use sdk_api.Jobs.Store.Wellformed.{map_found}
use sdk_api.Jobs.Postgres
use sdk_api.Jobs.Postgres.{
  JobRow, PgJobStore, new_pg_job_store, inserted, is_past, is_expired, may_retry, is_spent,
  ids_where, change_rows, set_pending, set_failed, reap_pending, reap_spent, is_old_row, result_of,
  error_of, scanned, result_bytes, updated_row,
}

module _ {J : Type 0} (marshal : String → J) (unmarshal : J → Option String)
    (trips : (result : String) → unmarshal (marshal result) ≡ some result) (column : ℕ → ℕ) where
  pub get-insert :
      (id j : String) (row : JobRow J) (p : PgJobStore J)
      → Postgres.get marshal unmarshal j (record p { rows = insert id row p.rows }) ≡ (
          if id == j
          then some (scanned marshal unmarshal j row)
          else Postgres.get marshal unmarshal j p)
  unfolding Postgres.get
  get-insert id j row p = rw (Postgres.get, lookup-insert id j row p.rows) (ground arith)

  pub none_found :
      (id : String) (p : PgJobStore J)
      → Postgres.get marshal unmarshal id p ≡ none
      → lookup id p.rows ≡ none
  unfolding Postgres.get
  none_found id p e = ground (arith, e)

  pub scanned-updated_row :
      (id : String) (status : JobStatus) (result : Option String) (msg : String) (timeout now : ℕ)
      (row : JobRow J)
      → column (now + timeout) ≡ column now + timeout
      → scanned marshal unmarshal id
          (updated_row marshal unmarshal column status result msg timeout now row)
        ≡ updated status result msg timeout (column now) (scanned marshal unmarshal id row)
  unfolding scanned updated_row updated
  scanned-updated_row id status none msg timeout now row shifts = rw shifts refl
  scanned-updated_row id status (some text) msg timeout now row shifts =
      rw (trips text, shifts) refl

  pub get-update :
      (id j : String) (status : JobStatus) (result : Option String) (msg : String) (now : ℕ)
      (p : PgJobStore J)
      → column (now + p.processing_timeout) ≡ column now + p.processing_timeout
      → Postgres.get marshal unmarshal j
          (Postgres.update marshal unmarshal column id status result msg now p)
        ≡ (if id == j
            then map_found
                (updated status result msg p.processing_timeout (column now))
                (Postgres.get marshal unmarshal id p)
            else Postgres.get marshal unmarshal j p)
  unfolding Postgres.update Postgres.get scanned
  get-update id j status result msg now p shifts = elim (Option-cases (lookup id p.rows)) [
    | inl missing ↦
        rw (Postgres.update, missing)
          (unfold Postgres.get in (ground (arith, missing, ==_iff id j)))
    | inr (row, found) ↦
        let row' =
          updated_row marshal unmarshal column status result msg p.processing_timeout now row in
        let is : Postgres.get marshal unmarshal id p ≡ some (scanned marshal unmarshal id row) =
          rw (Postgres.get, found) refl in
        rw (Postgres.update, found)
          (get-insert id j row' p ∙ elim (Bool-cases (id == j)) [
            | inl same ↦
                let e : id ≡ j = (==_iff id j).0 same in
                rw (same, is)
                  (ap some (
                    ap (λ i. scanned marshal unmarshal i row') (sym e)
                    ∙ scanned-updated_row id status result msg p.processing_timeout now row shifts))
            | inr other ↦ rw other refl
          ])
  ]

  pub pg_update-processing_timeout :
      (id : String) (status : JobStatus) (result : Option String) (msg : String) (now : ℕ)
      (p : PgJobStore J)
      → (Postgres.update marshal unmarshal column id status result msg now p).processing_timeout
        ≡ p.processing_timeout
  unfolding Postgres.update
  pg_update-processing_timeout id status result msg now p = elim (Option-cases (lookup id p.rows)) [
    | inl missing ↦ rw (Postgres.update, missing) refl
    | inr (row, found) ↦ rw (Postgres.update, found) refl
  ]

  pub update_ids :
      (id : String) (status : JobStatus) (result : Option String) (msg : String) (now : ℕ)
      (p : PgJobStore J)
      → IsMap p.rows
      → IsMap (Postgres.update marshal unmarshal column id status result msg now p).rows
  unfolding Postgres.update
  update_ids id status result msg now p h = elim (Option-cases (lookup id p.rows)) [
    | inl missing ↦ rw (Postgres.update, missing) h
    | inr (row, found) ↦ rw (Postgres.update, found) (insert-IsMap id _ p.rows h)
  ]
