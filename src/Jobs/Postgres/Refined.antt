-- ===== src/Jobs/Postgres/Refined.antt =====
-- runtime/async_store_pg.go: the store on Postgres and the store in memory give the same answers.
use sdk_api.Base.{
  ℕ, ◌+◌, ◌*◌, String, ◌≡◌, refl, sym, ap, ◌∙◌, ◌≢◌, not, Option, none, some, List, [], arith,
  ==_iff, nat_eq, string_eq, lookup, lookup-delete, IsMap, insert-IsMap, delete-IsMap,
  lookup-retain, retain-IsMap,
}
use sdk_api.Jobs.Store
use sdk_api.Jobs.Store.{
  JobStatus, pending, processing, completed, failed, status_eq, JobState, JobStore, new_job, minute,
  in_time, is_stuck, reaped, is_old, updated, new_memory_job_store,
}
use sdk_api.Jobs.Store.Wellformed
use sdk_api.Jobs.Store.Wellformed.{
  map_found, reap_job, get-create, get-reap_stale, get-cleanup, IsValid,
  new_memory_job_store-IsValid, create-IsValid, update-IsValid, remove-IsValid, reap_stale-IsValid,
  cleanup-IsValid, update-processing_timeout,
}
use sdk_api.Jobs.Postgres
use sdk_api.Jobs.Postgres.{
  JobRow, PgJobStore, new_pg_job_store, inserted, is_past, is_expired, may_retry, is_spent,
  ids_where, change_rows, set_pending, set_failed, reap_pending, reap_spent, is_old_row, result_of,
  error_of, scanned, result_bytes, updated_row,
}
use sdk_api.Jobs.Postgres.Gets.{
  get-insert, none_found, get-update, pg_update-processing_timeout, update_ids,
}
use sdk_api.Jobs.Postgres.Reaped.{IsLimit, FewDue, get-reap_stale_few, reap_stale-IsMap}

module _ {J : Type 0} (marshal : String → J) (unmarshal : J → Option String) (column : ℕ → ℕ) where
  -- A history of calls on the two stores; those on the store in memory are made at the times that a
  -- column keeps of the times of the others.
  pub data Histories : PgJobStore J → JobStore → Type 0 where
    starts : Histories (new_pg_job_store []) new_memory_job_store
    creates :
        {p : PgJobStore J} {s : JobStore} (id : String) (now : ℕ)
        → Postgres.get marshal unmarshal id p ≡ none
        → Histories p s
        → Histories (Postgres.create column id now p).0 (Store.create id (column now) s)
    updates :
        {p : PgJobStore J} {s : JobStore} (id : String) (status : JobStatus)
        (result : Option String) (msg : String) (now : ℕ)
        → Histories p s
        → Histories
            (Postgres.update marshal unmarshal column id status result msg now p)
            (Store.update id status result msg (column now) s)
    removes :
        {p : PgJobStore J} {s : JobStore} (id : String)
        → Histories p s
        → Histories (Postgres.remove id p) (Store.remove id s)
    reaps :
        {p : PgJobStore J} {s : JobStore} (pick : List String → List String) (max_retries now : ℕ)
        → IsLimit pick
        → FewDue pick max_retries (column now) p
        → ((id : String) (js : JobState)
            → Postgres.get marshal unmarshal id p ≡ some js
            → js.processing_deadline ≢ some (column now))
        → Histories p s
        → Histories
            (Postgres.reap_stale pick max_retries (column now) p).0
            (Store.reap_stale max_retries (column now) s).0
    cleans :
        {p : PgJobStore J} {s : JobStore} (interval : ℕ → ℕ) (ttl now : ℕ)
        → interval ttl ≡ ttl
        → Histories p s
        → Histories
            (Postgres.cleanup interval ttl (column now) p).0
            (Store.cleanup ttl (column now) s).0

  -- The two stores hold the same jobs.
  pub record Agrees (p : PgJobStore J) (s : JobStore) : Type 0 where
    pub five_minutes : p.processing_timeout ≡ 5 * minute
    pub same_timeout : p.processing_timeout ≡ s.processing_timeout
    pub ids : IsMap p.rows
    pub valid : IsValid s
    pub same_jobs : (id : String) → Postgres.get marshal unmarshal id p ≡ Store.get id s

module _ {J : Type 0} (marshal : String → J) (unmarshal : J → Option String)
    (trips : (result : String) → unmarshal (marshal result) ≡ some result) (column : ℕ → ℕ)
    (shifts : (t : ℕ) → column (t + 5 * minute) ≡ column t + 5 * minute) where
  create-Agrees :
      (p : PgJobStore J) (s : JobStore) (id : String) (now : ℕ)
      → Postgres.get marshal unmarshal id p ≡ none
      → Agrees marshal unmarshal column p s
      → Agrees marshal unmarshal column
          (Postgres.create column id now p).0
          (Store.create id (column now) s)
  unfolding Postgres.create
  create-Agrees p s id now absent a =
      rw (Postgres.create, none_found marshal unmarshal trips column id p absent)
        (record {
          five_minutes = a.five_minutes;
          same_timeout = unfold Store.create in a.same_timeout;
          ids = insert-IsMap id (inserted (column now)) p.rows a.ids;
          valid = create-IsValid id (column now) s a.valid;
          same_jobs = λ j.
              get-insert marshal unmarshal trips column id j (inserted (column now)) p
              ∙ (unfold scanned inserted new_job in
                  (ground (arith, a.same_jobs j, get-create id j (column now) s, ==_iff id j)));
        })

  remove-Agrees :
      (p : PgJobStore J) (s : JobStore) (id : String)
      → Agrees marshal unmarshal column p s
      → Agrees marshal unmarshal column (Postgres.remove id p) (Store.remove id s)
  unfolding Postgres.remove Postgres.get
  remove-Agrees p s id a = record {
    five_minutes = a.five_minutes;
    same_timeout = unfold Store.remove in a.same_timeout;
    ids = delete-IsMap id p.rows a.ids;
    valid = remove-IsValid id s a.valid;
    same_jobs =
        λ j. ground (arith, lookup-delete id j p.rows, a.same_jobs j, Wellformed.get-remove id j s);
  }

  cleanup-Agrees :
      (p : PgJobStore J) (s : JobStore) (interval : ℕ → ℕ) (ttl now : ℕ)
      → interval ttl ≡ ttl
      → Agrees marshal unmarshal column p s
      → Agrees marshal unmarshal column
          (Postgres.cleanup interval ttl now p).0
          (Store.cleanup ttl now s).0
  unfolding Postgres.cleanup Postgres.get scanned
  cleanup-Agrees p s interval ttl now whole a = record {
    five_minutes = a.five_minutes;
    same_timeout = unfold Store.cleanup in a.same_timeout;
    ids = retain-IsMap _ p.rows a.ids;
    valid = cleanup-IsValid ttl now s a.valid;
    same_jobs = λ j. ground (
      arith,
      whole,
      lookup-retain (λ id row. not (is_old_row (interval ttl) now row)) j p.rows a.ids,
      a.same_jobs j,
      get-cleanup ttl now j s a.valid.keys,
    );
  }

  update-Agrees :
      (p : PgJobStore J) (s : JobStore) (id : String) (status : JobStatus) (result : Option String)
      (msg : String) (now : ℕ)
      → Agrees marshal unmarshal column p s
      → Agrees marshal unmarshal column
          (Postgres.update marshal unmarshal column id status result msg now p)
          (Store.update id status result msg (column now) s)
  update-Agrees p s id status result msg now a = record {
    five_minutes =
        pg_update-processing_timeout marshal unmarshal trips column id status result msg now p
        ∙ a.five_minutes;
    same_timeout =
        pg_update-processing_timeout marshal unmarshal trips column id status result msg now p
        ∙ a.same_timeout
        ∙ sym (update-processing_timeout id status result msg (column now) s);
    ids = update_ids marshal unmarshal trips column id status result msg now p a.ids;
    valid = update-IsValid id status result msg (column now) s a.valid;
    same_jobs = λ j.
        get-update marshal unmarshal trips column id j status result msg now p (
          ap (λ t. column (now + t)) a.five_minutes
          ∙ shifts now
          ∙ ap (λ t. column now + t) (sym a.five_minutes))
        ∙ rw (a.same_jobs id, a.same_jobs j, a.same_timeout) refl
        ∙ sym (Wellformed.get-update id j status result msg (column now) s);
  }

  reap-Agrees :
      (p : PgJobStore J) (s : JobStore) (pick : List String → List String) (max_retries now : ℕ)
      → IsLimit pick
      → FewDue pick max_retries now p
      → ((id : String) (js : JobState)
          → Postgres.get marshal unmarshal id p ≡ some js
          → js.processing_deadline ≢ some now)
      → Agrees marshal unmarshal column p s
      → Agrees marshal unmarshal column
          (Postgres.reap_stale pick max_retries now p).0
          (Store.reap_stale max_retries now s).0
  reap-Agrees p s pick max_retries now limit few apart a = record {
    five_minutes = unfold Postgres.reap_stale reap_pending reap_spent in a.five_minutes;
    same_timeout =
        unfold Postgres.reap_stale Store.reap_stale reap_pending reap_spent in a.same_timeout;
    ids = reap_stale-IsMap pick limit max_retries now p a.ids;
    valid = reap_stale-IsValid max_retries now s a.valid;
    same_jobs = λ id.
        get-reap_stale_few marshal unmarshal pick max_retries now p id limit a.ids few (apart id)
        ∙ ap (map_found (reap_job max_retries now)) (a.same_jobs id)
        ∙ sym (get-reap_stale max_retries now id s);
  }

  histories-Agrees :
      {p : PgJobStore J} {s : JobStore}
      → Histories marshal unmarshal column p s
      → Agrees marshal unmarshal column p s
  histories-Agrees starts = record {
    five_minutes = unfold new_pg_job_store in refl;
    same_timeout = unfold new_pg_job_store new_memory_job_store in refl;
    ids = unfold new_pg_job_store in tt;
    valid = new_memory_job_store-IsValid;
    same_jobs =
        λ id. unfold new_pg_job_store new_memory_job_store Postgres.get Store.get lookup in refl;
  }
  histories-Agrees (creates id now absent h) = create-Agrees _ _ id now absent (histories-Agrees h)
  histories-Agrees (updates id status result msg now h) =
      update-Agrees _ _ id status result msg now (histories-Agrees h)
  histories-Agrees (removes id h) = remove-Agrees _ _ id (histories-Agrees h)
  histories-Agrees (reaps {p} {s} pick max_retries now limit few apart h) =
      reap-Agrees p s pick max_retries (column now) limit few apart (histories-Agrees h)
  histories-Agrees (cleans interval ttl now whole h) =
      cleanup-Agrees _ _ interval ttl (column now) whole (histories-Agrees h)

  -- A new store on an empty table and a new store in memory answer Get in the same way after any
  -- history of the same calls of Create, Update, Delete, ReapStale and Cleanup. A column may keep
  -- less of a time than it is given: the calls on the store in memory are made at what a column
  -- keeps of the times of the calls on the table. A result is unmarshalled as it was marshalled, a
  -- column keeps a span of five minutes whole, the interval of a Cleanup is read as it is, the
  -- clock of the database is that of the program, Create is called for an id that no job has, and a
  -- reap finds at most a hundred jobs for each of its statements and none whose deadline is that
  -- very moment.
  pub histories_same_answers :
      {p : PgJobStore J} {s : JobStore} (id : String)
      → Histories marshal unmarshal column p s
      → Postgres.get marshal unmarshal id p ≡ Store.get id s
  histories_same_answers id h = (histories-Agrees h).same_jobs id
