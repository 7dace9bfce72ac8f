-- ===== src/Jobs/Store.antt =====
-- runtime/async_store.go: JobState and memoryJobStore. Each method holds the store's lock and is one
-- step; `now` is `time.Now()`. A result is the JSON value that the processor has set, as text.
pub mod Wellformed
pub mod Keyed
pub mod Reaping
use sdk_api.Base.{
  ℕ, zero, suc, ◌+◌, ◌-◌, ◌*◌, ◌≤◌, ◌<◌, ◌/◌, ◌%◌, String, ◌≡◌, refl, sym, ap, ◌∙◌, ◌≢◌, ◌↔◌, ◌⊎◌,
  inl, inr, Bool, true, false, not, ◌&&◌, ◌||◌, Option, none, some, List, [], ◌∷◌, ◌++◌, map, arith,
  ltb, leb, nat_beq, nat_beq_iff, Eq, ◌==◌, ==_iff, nat_eq, string_eq, if◌then◌else◌, Bool-cases,
  Option-cases, is_some, length, get_elem?, set, take, length-append, length-set,
  get_elem?-append_last, get_elem?-append_left, get_elem?-set_ne, get_elem?-set_self, All, Map,
  lookup, insert, delete, lookup-insert, lookup-delete, contains, contains-cons_self,
  contains-cons_of_contains, contains-cons_cases, IsMap, retain, kept, insert-IsMap, delete-IsMap,
  lookup-retain, retain-IsMap,
}

-- JobPending, JobProcessing, JobCompleted, JobFailed.
pub data JobStatus : Type 0 where
  pending processing completed failed : JobStatus

abbrev pub status_beq : JobStatus → JobStatus → Bool
status_beq pending pending = true
status_beq processing processing = true
status_beq completed completed = true
status_beq failed failed = true
status_beq _ _ = false

pub status_beq_iff : (a b : JobStatus) → (status_beq a b ≡ true) ↔ (a ≡ b)
status_beq_iff a b = ground arith

instance abbrev pub status_eq : Eq JobStatus
status_eq = record { is_same = status_beq; is_same_iff = status_beq_iff }

pub record JobState : Type 0 where
  pub id : String
  pub status : JobStatus
  pub result : Option String
  pub error : String
  pub created_at : ℕ
  pub updated_at : ℕ
  pub retry_count : ℕ
  pub max_retries : ℕ
  pub processing_deadline : Option ℕ
  pub callback_url : String

pub record JobStore : Type 0 where
  pub jobs : Map String JobState
  pub processing_timeout : ℕ

abbrev pub minute : ℕ
minute = 60_000_000_000

-- `newMemoryJobStore`.
unfoldable pub new_memory_job_store : JobStore
new_memory_job_store = record { jobs = []; processing_timeout = 5 * minute }

-- The job that `Create` makes.
unfoldable pub new_job : String → ℕ → JobState
new_job id now = record {
  id = id;
  status = pending;
  result = none;
  error = "";
  created_at = now;
  updated_at = now;
  retry_count = 0;
  max_retries = 0;
  processing_deadline = none;
  callback_url = "";
}

-- `Create`.
unfoldable pub create : String → ℕ → JobStore → JobStore
create id now s = record s { jobs = insert id (new_job id now) s.jobs }

-- `Get` and `Snapshot`.
unfoldable pub get : String → JobStore → Option JobState
get id s = lookup id s.jobs

-- What `Update` writes into a job.
unfoldable pub updated : JobStatus → Option String → String → ℕ → ℕ → JobState → JobState
updated status result err_msg timeout now js = record js {
  status = status;
  result = result;
  error = err_msg;
  updated_at = now;
  processing_deadline = if status == processing then some (now + timeout) else none;
}

-- `Update`: an id that is not there is passed over.
unfoldable pub update : String → JobStatus → Option String → String → ℕ → JobStore → JobStore
update id status result err_msg now s = elim (lookup id s.jobs) [
  | none ↦ s
  | some js ↦ record s {
    jobs = insert id (updated status result err_msg s.processing_timeout now js) s.jobs;
  }
]

-- `Delete`.
unfoldable pub remove : String → JobStore → JobStore
remove id s = record s { jobs = delete id s.jobs }

-- `List`.
unfoldable pub list : JobStore → List JobState
list s = map (λ r. r.1) s.jobs

-- `js.ProcessingDeadline == nil || now.Before(*js.ProcessingDeadline)`.
abbrev pub in_time : Option ℕ → ℕ → Bool
in_time none now = true
in_time (some deadline) now = ltb now deadline

abbrev pub is_stuck : JobState → ℕ → Bool
is_stuck js now = js.status == processing && not (in_time js.processing_deadline now)

-- The body of the loop of `ReapStale`, for a job that is not passed over.
unfoldable pub reaped : (max_retries now : ℕ) → JobState → JobState
reaped max_retries now js =
    if leb max_retries js.retry_count
    then record js {
      status = failed;
      error = "max retries exceeded";
      processing_deadline = none;
      updated_at = now;
    }
    else record js {
      status = pending;
      retry_count = js.retry_count + 1;
      processing_deadline = none;
      updated_at = now;
    }

-- The loop of `ReapStale`: the jobs, and how many were reaped.
unfoldable pub reap_jobs : (max_retries now : ℕ) → Map String JobState → Map String JobState × ℕ
reap_jobs max_retries now [] = ([], 0)
reap_jobs max_retries now ((id, js) ∷ jobs) =
    let (rest, count) = reap_jobs max_retries now jobs in
    if is_stuck js now
    then ((id, reaped max_retries now js) ∷ rest, count + 1)
    else ((id, js) ∷ rest, count)

-- `ReapStale`.
unfoldable pub reap_stale : (max_retries now : ℕ) → JobStore → JobStore × ℕ
reap_stale max_retries now s =
    (record s { jobs = (reap_jobs max_retries now s.jobs).0 }, (reap_jobs max_retries now s.jobs).1)

-- A job that `Cleanup` deletes; its cutoff is `now - ttl`.
abbrev pub is_old : (ttl now : ℕ) → JobState → Bool
is_old ttl now js = (js.status == completed || js.status == failed) && ltb (js.updated_at + ttl) now

count_old : (ttl now : ℕ) → Map String JobState → ℕ
count_old ttl now [] = 0
count_old ttl now ((id, js) ∷ jobs) =
    let rest = count_old ttl now jobs in if is_old ttl now js then rest + 1 else rest

-- `Cleanup`: the store, and how many jobs were deleted.
unfoldable pub cleanup : (ttl now : ℕ) → JobStore → JobStore × ℕ
unfolding count_old
cleanup ttl now s =
    (record s { jobs = retain (λ id js. not (is_old ttl now js)) s.jobs }, count_old ttl now s.jobs)
