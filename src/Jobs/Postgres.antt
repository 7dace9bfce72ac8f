-- ===== src/Jobs/Postgres.antt =====
-- runtime/async_store_pg.go: pgJobStore. A statement of SQL is one step on the rows of the table and is
-- answered without an error. encoding/json is a parameter with the type of what it writes, and so is the
-- choice that the database makes where a LIMIT without an order leaves one. What a TIMESTAMPTZ column
-- keeps of a time, which has fewer digits than the time, is the parameter `column`; NOW() is the time of
-- the call as a column keeps it.
pub mod Rows
pub mod Reaped
pub mod Gets
pub mod Refined
pub mod Limited
mod Tests
use sdk_api.Base.{
  ℕ, subst, zero, suc, ◌+◌, ◌-◌, ◌*◌, ◌≤◌, ◌<◌, ◌/◌, ◌%◌, ◌^◌, String, ◌≡◌, refl, sym, ap, ◌∙◌, ◌≢◌,
  ◌↔◌, ◌⊎◌, inl, inr, Bool, true, false, not, ◌&&◌, ◌||◌, Option, none, some, List, [], ◌∷◌, ◌++◌,
  map, arith, ltb, leb, nat_beq, nat_beq_iff, Eq, ◌==◌, ==_iff, nat_eq, string_eq, if◌then◌else◌,
  Bool-cases, Option-cases, is_some, length, get_elem?, set, take, length-append, length-set,
  get_elem?-append_last, get_elem?-append_left, get_elem?-set_ne, get_elem?-set_self, All, Map,
  lookup, insert, delete, lookup-insert, lookup-delete, contains, contains-cons_self,
  contains-cons_of_contains, contains-cons_cases, IsMap, retain, kept, insert-IsMap, delete-IsMap,
  lookup-retain, retain-IsMap,
}
use sdk_api.Jobs.Store.{
  JobStatus, pending, processing, completed, failed, status_eq, JobState, new_job, minute,
}

-- A row, by the name of its id; `none` is NULL.
pub record JobRow (J : Type 0) : Type 0 where
  pub status : JobStatus
  pub result : Option J
  pub error : Option String
  pub created_at : ℕ
  pub updated_at : ℕ
  pub retry_count : ℕ
  pub max_retries : ℕ
  pub processing_deadline : Option ℕ

-- `processingTimeout` and the rows of the table.
pub record PgJobStore (J : Type 0) : Type 0 where
  pub processing_timeout : ℕ
  pub rows : Map String (JobRow J)

-- `newPGJobStore`, on a table that holds these rows.
unfoldable pub new_pg_job_store : {J : Type 0} → Map String (JobRow J) → PgJobStore J
new_pg_job_store rows = record { processing_timeout = 5 * minute; rows = rows }

-- `processing_deadline < NOW()`, which NULL is not.
abbrev pub is_past : Option ℕ → ℕ → Bool
is_past none now = false
is_past (some deadline) now = ltb deadline now

module _ {J : Type 0} where
  -- The row of the INSERT, with the defaults of the table; the time is what the column keeps.
  unfoldable pub inserted : ℕ → JobRow J
  inserted now = record {
    status = pending;
    result = none;
    error = none;
    created_at = now;
    updated_at = now;
    retry_count = 0;
    max_retries = 0;
    processing_deadline = none;
  }

  -- `Create`: ON CONFLICT DO NOTHING.
  unfoldable pub create : (column : ℕ → ℕ) → String → ℕ → PgJobStore J → PgJobStore J × JobState
  create column id now s = elim (lookup id s.rows) [
    | none ↦ (record s { rows = insert id (inserted (column now)) s.rows }, new_job id now)
    | some row ↦ (s, new_job id now)
  ]

  -- `Delete`.
  unfoldable pub remove : String → PgJobStore J → PgJobStore J
  remove id s = record s { rows = delete id s.rows }

  abbrev pub is_expired : JobRow J → ℕ → Bool
  is_expired row now = row.status == processing && is_past row.processing_deadline now

  -- The conditions of the two statements of `ReapStale`.
  abbrev pub may_retry : (max_retries now : ℕ) → JobRow J → Bool
  may_retry max_retries now row = is_expired row now && ltb row.retry_count max_retries

  abbrev pub is_spent : (max_retries now : ℕ) → JobRow J → Bool
  is_spent max_retries now row = is_expired row now && leb max_retries row.retry_count

  unfoldable pub ids_where : (JobRow J → Bool) → Map String (JobRow J) → List String
  ids_where test [] = []
  ids_where test ((id, row) ∷ rows) =
      let rest = ids_where test rows in if test row then id ∷ rest else rest

  -- UPDATE of the rows with these ids: the table, and RowsAffected.
  unfoldable pub change_rows :
      List String → (JobRow J → JobRow J) → Map String (JobRow J) → Map String (JobRow J) × ℕ
  change_rows ids change [] = ([], 0)
  change_rows ids change ((id, row) ∷ rows) =
      let (rest, count) = change_rows ids change rows in
      if contains ids id then ((id, change row) ∷ rest, count + 1) else ((id, row) ∷ rest, count)

  -- SET of the first statement, and of the second one.
  unfoldable pub set_pending : ℕ → JobRow J → JobRow J
  set_pending now row = record row {
    status = pending;
    retry_count = row.retry_count + 1;
    processing_deadline = none;
    updated_at = now;
  }

  unfoldable pub set_failed : ℕ → JobRow J → JobRow J
  set_failed now row = record row {
    status = failed;
    error = some "max retries exceeded";
    processing_deadline = none;
    updated_at = now;
  }

  -- `ReapStale`; `now` is NOW(), and `pick` what LIMIT 100 leaves of the ids.
  module _ (pick : List String → List String) (max_retries now : ℕ) where
    unfoldable pub reap_pending : PgJobStore J → PgJobStore J × ℕ
    reap_pending s =
        let (rows, count) =
          change_rows (pick (ids_where (may_retry max_retries now) s.rows)) (set_pending now)
            s.rows in
        (record s { rows = rows }, count)

    unfoldable pub reap_spent : PgJobStore J → PgJobStore J × ℕ
    reap_spent s =
        let (rows, count) =
          change_rows (pick (ids_where (is_spent max_retries now) s.rows)) (set_failed now)
            s.rows in
        (record s { rows = rows }, count)

    unfoldable pub reap_stale : PgJobStore J → PgJobStore J × ℕ
    reap_stale s =
        let first = reap_pending s in
        let second = reap_spent first.0 in (second.0, first.1 + second.1)

  -- The condition of `Cleanup`.
  abbrev pub is_old_row : (ttl now : ℕ) → JobRow J → Bool
  is_old_row ttl now row =
      (row.status == completed || row.status == failed) && ltb (row.updated_at + ttl) now

  -- `Cleanup`: the table, and RowsAffected. `now` is NOW(), and `interval` what the database reads from
  -- the text of the time to live.
  unfoldable pub cleanup : (interval : ℕ → ℕ) → (ttl now : ℕ) → PgJobStore J → PgJobStore J × ℕ
  cleanup interval ttl now s = (
    record s { rows = retain (λ id row. not (is_old_row (interval ttl) now row)) s.rows },
    length (ids_where (is_old_row (interval ttl) now) s.rows),
  )

  -- ORDER BY created_at DESC.
  unfoldable pub insert_newest : String × JobRow J → Map String (JobRow J) → Map String (JobRow J)
  insert_newest new [] = new ∷ []
  insert_newest new (old ∷ rows) =
      let rest = insert_newest new rows in
      if ltb new.1.created_at old.1.created_at then old ∷ rest else new ∷ old ∷ rows

  unfoldable pub newest_first : Map String (JobRow J) → Map String (JobRow J)
  newest_first [] = []
  newest_first (row ∷ rows) = insert_newest row (newest_first rows)

module _ {J : Type 0} (marshal : String → J) (unmarshal : J → Option String) where
  abbrev pub result_of : Option J → Option String
  result_of none = none
  result_of (some text) = unmarshal text

  abbrev pub error_of : Option String → String
  error_of none = ""
  error_of (some msg) = msg

  -- What `Get` and `List` read from a row; there is no column for the callback URL.
  unfoldable pub scanned : String → JobRow J → JobState
  scanned id row = record {
    id = id;
    status = row.status;
    result = result_of row.result;
    error = error_of row.error;
    created_at = row.created_at;
    updated_at = row.updated_at;
    retry_count = row.retry_count;
    max_retries = row.max_retries;
    processing_deadline = row.processing_deadline;
    callback_url = "";
  }

  -- `Get` and `Snapshot`.
  unfoldable pub get : String → PgJobStore J → Option JobState
  get id s = elim (lookup id s.rows) [ none ↦ none | some row ↦ some (scanned id row) ]

  abbrev pub result_bytes : Option String → Option J
  result_bytes none = none
  result_bytes (some result) = some (marshal result)

  -- SET of `Update`.
  unfoldable pub updated_row :
      (column : ℕ → ℕ)
      → JobStatus
      → Option String
      → String
      → (timeout now : ℕ) → JobRow J
      → JobRow J
  updated_row column status result err_msg timeout now row = record row {
    status = status;
    result = result_bytes result;
    error = some err_msg;
    updated_at = column now;
    processing_deadline = if status == processing then some (column (now + timeout)) else none;
  }

  -- `Update`.
  unfoldable pub update :
      (column : ℕ → ℕ)
      → String
      → JobStatus
      → Option String
      → String
      → ℕ
      → PgJobStore J
      → PgJobStore J
  update column id status result err_msg now s = elim (lookup id s.rows) [
    | none ↦ s
    | some row ↦ record s {
      rows =
          insert id (updated_row column status result err_msg s.processing_timeout now row) s.rows;
    }
  ]

  -- `List`, with its LIMIT.
  unfoldable pub list : PgJobStore J → List JobState
  list s = map (λ r. scanned r.0 r.1) (take 100 (newest_first s.rows))
