-- ===== src/Jobs/Postgres/Tests.antt =====
-- Runs of runtime/async_store_pg.go where a result is stored as it is.
use sdk_api.Base.{
  ℕ, zero, suc, ◌+◌, ◌*◌, ◌≤◌, ◌/◌, String, ◌≡◌, refl, ap, ◌≢◌, true, Option, none, some, List, [],
  ◌∷◌, map, arith, nat_eq, string_eq, length, take, lookup, insert, contains, IsMap,
}
use sdk_api.Jobs.Store
use sdk_api.Jobs.Store.{
  JobStatus, pending, processing, completed, failed, status_eq, JobState, JobStore, new_job, minute,
  is_stuck, reaped, updated, new_memory_job_store,
}
use sdk_api.Jobs.Postgres
use sdk_api.Jobs.Postgres.{
  JobRow, PgJobStore, new_pg_job_store, inserted, ids_where, reap_pending, reap_spent, change_rows,
  set_pending, set_failed, scanned, updated_row, newest_first, insert_newest,
}
use sdk_api.Jobs.Postgres.Reaped.{IsLimit, FewDue}
use sdk_api.Jobs.Postgres.Refined.{
  Histories, starts, creates, updates, reaps, histories_same_answers,
}

abbrev store_as_is : String → String
store_as_is result = result

abbrev load_as_is : String → Option String
load_as_is text = some text

contains-take :
    (n : ℕ) (ids : List String) (id : String)
    → contains (take n ids) id ≡ true
    → contains ids id ≡ true
unfolding contains
contains-take zero ids id h = absurd (cc)
contains-take (suc n) [] id h = h
contains-take (suc n) (i ∷ ids) id h = ground (arith, contains-take n ids id)

take_all : (n : ℕ) (ids : List String) → length ids ≤ n → take n ids ≡ ids
take_all zero [] h = refl
take_all zero (i ∷ ids) h = absurd (omega (arith, h))
take_all (suc n) [] h = refl
take_all (suc n) (i ∷ ids) h =
    ap (λ (rest : List String). i ∷ rest) (take_all n ids (omega (arith, h)))

take-IsLimit : IsLimit (take 100)
take-IsLimit = record {
  some_of = contains-take 100;
  all_of = λ ids id few member. rw (take_all 100 ids few) member;
}

-- Whole microseconds.
abbrev column : ℕ → ℕ
column t = t / 1000 * 1000

column-shifts : (t : ℕ) → column (t + 5 * minute) ≡ column t + 5 * minute
column-shifts t = omega arith

abbrev fresh : PgJobStore String
fresh = new_pg_job_store []

abbrev with_job : PgJobStore String
with_job =
    Postgres.update store_as_is load_as_is column "a" processing none "" 2_500
      (Postgres.create column "a" 1_999 fresh).0

abbrev in_memory : JobStore
in_memory = Store.update "a" processing none "" 2_000 (Store.create "a" 1_000 new_memory_job_store)

absent : Postgres.get store_as_is load_as_is "a" fresh ≡ none
unfolding Postgres.get new_pg_job_store lookup
absent = refl

abbrev due : ℕ
due = 10 * minute

few_due : FewDue (take 100) 3 due with_job
unfolding Postgres.update Postgres.create new_pg_job_store lookup insert inserted updated_row
    ids_where reap_pending change_rows contains set_pending
few_due = (omega arith, omega arith)

job_found :
    Postgres.get store_as_is load_as_is "a" with_job
    ≡ some (updated processing none "" (5 * minute) 2_000 (new_job "a" 1_000))
unfolding Postgres.get Postgres.update Postgres.create new_pg_job_store lookup insert inserted
    updated_row scanned updated new_job
job_found = refl

later_deadline :
    (id : String) (js : JobState)
    → Postgres.get store_as_is load_as_is id with_job ≡ some js
    → js.processing_deadline ≢ some due
unfolding Postgres.get Postgres.update Postgres.create new_pg_job_store lookup insert inserted
    updated_row scanned
later_deadline id js found = ground (arith, found)

history :
    Histories store_as_is load_as_is column
      (Postgres.reap_stale (take 100) 3 due with_job).0
      (Store.reap_stale 3 due in_memory).0
history =
    reaps (take 100) 3 due take-IsLimit few_due later_deadline
      (updates "a" processing none "" 2_500 (creates "a" 1_999 absent starts))

histories_same_answers_example :
    Postgres.get store_as_is load_as_is "a" (Postgres.reap_stale (take 100) 3 due with_job).0
    ≡ Store.get "a" (Store.reap_stale 3 due in_memory).0
histories_same_answers_example =
    histories_same_answers store_as_is load_as_is (λ result. refl) column column-shifts "a" history

with_job-IsMap : IsMap with_job.rows
unfolding Postgres.update Postgres.create new_pg_job_store lookup insert
with_job-IsMap = (refl, tt)

-- A second Create of the same id leaves the job that is there, and the store in memory replaces it.
created_twice :
    (Postgres.get store_as_is load_as_is "a" (Postgres.create column "a" 9_000 with_job).0
      ≡ some (updated processing none "" (5 * minute) 2_000 (new_job "a" 1_000)))
    × (Store.get "a" (Store.create "a" 9_000 in_memory) ≡ some (new_job "a" 9_000))
unfolding Postgres.get Postgres.update Postgres.create new_pg_job_store lookup insert inserted
    updated_row scanned updated new_job Store.get Store.create Store.update new_memory_job_store
created_twice = (refl, refl)

-- The newest job is the first.
listed :
    map
      (λ (js : JobState). js.id)
      (Postgres.list store_as_is load_as_is (Postgres.create column "b" 5_000 with_job).0)
    ≡ "b" ∷ "a" ∷ []
unfolding Postgres.list Postgres.update Postgres.create new_pg_job_store lookup insert inserted
    updated_row scanned newest_first insert_newest
listed = refl
