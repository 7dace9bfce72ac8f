-- ===== src/Jobs/Store/Reaping.antt =====
-- runtime/async_store.go, `ReapStale` and `Cleanup`: which jobs they act on, and how many.
use sdk_api.Base.{
  ℕ, ◌+◌, ◌≤◌, String, ◌≡◌, refl, inl, inr, false, not, some, [], ◌∷◌, arith, nat_eq, string_eq,
  if◌then◌else◌, Option-cases, length, Map, retain,
}
use sdk_api.Jobs.Store.{
  status_eq, JobState, JobStore, get, is_stuck, reaped, reap_jobs, reap_stale, is_old, count_old,
  cleanup,
}
use sdk_api.Jobs.Store.Wellformed.{get-reap_stale}

-- After a reap no job is being processed beyond its deadline.
pub reap_stale-not_stuck :
    (max_retries now : ℕ) (s : JobStore) (id : String) (js : JobState)
    → get id (reap_stale max_retries now s).0 ≡ some js
    → is_stuck js now ≡ false
unfolding reaped
reap_stale-not_stuck max_retries now s id js e = elim (Option-cases (get id s)) [
  | inl missing ↦ ground (arith, get-reap_stale max_retries now id s)
  | inr (old, found) ↦ ground (arith, get-reap_stale max_retries now id s)
]

-- The retries of every job.
abbrev pub RetriesWithin : ℕ → JobStore → Type 0
RetriesWithin n s = (id : String) (js : JobState) → get id s ≡ some js → js.retry_count ≤ n

-- A reap keeps the retries of every job within the limit, where they were within it before.
pub reap_stale-RetriesWithin :
    (max_retries now : ℕ) (s : JobStore)
    → RetriesWithin max_retries s
    → RetriesWithin max_retries (reap_stale max_retries now s).0
unfolding reaped
reap_stale-RetriesWithin max_retries now s within id js e = elim (Option-cases (get id s)) [
  | inl missing ↦ ground (arith, get-reap_stale max_retries now id s)
  | inr (old, found) ↦ ground (arith, get-reap_stale max_retries now id s, within id old found)
]

pub count_stuck : ℕ → Map String JobState → ℕ
count_stuck now [] = 0
count_stuck now ((id, js) ∷ jobs) = (if is_stuck js now then 1 else 0) + count_stuck now jobs

reap_jobs_count :
    (max_retries now : ℕ) (jobs : Map String JobState)
    → (reap_jobs max_retries now jobs).1 ≡ count_stuck now jobs
unfolding reap_jobs count_stuck
reap_jobs_count max_retries now [] = refl
reap_jobs_count max_retries now ((id, js) ∷ jobs) =
    ground (arith, reap_jobs_count max_retries now jobs)

-- The number that `ReapStale` returns is the number of jobs that were stuck.
pub reap_stale_count :
    (max_retries now : ℕ) (s : JobStore) → (reap_stale max_retries now s).1 ≡ count_stuck now s.jobs
unfolding reap_stale
reap_stale_count max_retries now s = reap_jobs_count max_retries now s.jobs

retain_count :
    (ttl now : ℕ) (jobs : Map String JobState)
    → length (retain (λ id js. not (is_old ttl now js)) jobs) + count_old ttl now jobs ≡ length jobs
unfolding retain count_old
retain_count ttl now [] = refl
retain_count ttl now ((id, js) ∷ jobs) = ground (arith, retain_count ttl now jobs)

-- `Cleanup` returns the number of jobs by which the store has shrunk.
pub cleanup_count :
    (ttl now : ℕ) (s : JobStore)
    → length (cleanup ttl now s).0.jobs + (cleanup ttl now s).1 ≡ length s.jobs
unfolding cleanup
cleanup_count ttl now s = retain_count ttl now s.jobs
