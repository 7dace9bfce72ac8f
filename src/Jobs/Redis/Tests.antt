-- ===== src/Jobs/Redis/Tests.antt =====
-- Runs of runtime/async_store_redis.go where a job is stored as it is.
use sdk_api.Base.{
  ◌*◌, String, ◌≡◌, refl, true, Option, none, some, [], arith, nat_eq, string_eq, lookup, insert,
}
use sdk_api.Jobs.Store
use sdk_api.Jobs.Store.{
  JobStatus, pending, processing, completed, failed, status_eq, JobState, JobStore, new_job, minute,
  is_stuck, reaped, updated, new_memory_job_store,
}
use sdk_api.Jobs.Redis
use sdk_api.Jobs.Redis.{
  RedisJobStore, new_redis_job_store, read, written, reap_read, reap_write, key,
}
use sdk_api.Jobs.Redis.Refined.{Histories, starts, creates, updates, reaps, histories_same_jobs}
use sdk_api.Jobs.Redis.Races.{reap_write_after_update}

abbrev store_as_is : JobState → JobState
store_as_is js = js

abbrev load_as_is : JobState → Option JobState
load_as_is js = some js

abbrev fresh : RedisJobStore JobState
fresh = new_redis_job_store "job:" []

nothing_held : (id : String) → Redis.get store_as_is load_as_is id fresh ≡ none
unfolding Redis.get read new_redis_job_store lookup
nothing_held id = refl

abbrev reaped_empty : RedisJobStore JobState
reaped_empty = (Redis.reap_stale store_as_is load_as_is 3 1 [] fresh).0

abbrev with_job : RedisJobStore JobState
with_job =
    Redis.update store_as_is load_as_is "a" processing none "" 2
      (Redis.create store_as_is load_as_is "a" 1 reaped_empty).0

abbrev in_memory : JobStore
in_memory =
    Store.update "a" processing none "" 2
      (Store.create "a" 1 (Store.reap_stale 3 1 new_memory_job_store).0)

history : Histories store_as_is load_as_is with_job in_memory
history = updates "a" processing none "" 2 (
    creates "a" 1 (
      reaps 3 1 [] (λ id js e. absurd (ground (arith, nothing_held id, e)))
        (starts "job:" [] nothing_held)))

histories_same_jobs_example :
    Redis.get store_as_is load_as_is "a" with_job ≡ Store.get "a" in_memory
histories_same_jobs_example = histories_same_jobs store_as_is load_as_is (λ js. refl) "a" history

abbrev job : JobState
job = written store_as_is load_as_is processing none "" (5 * minute) 2 (new_job "a" 1)

job_found : Redis.get store_as_is load_as_is "a" with_job ≡ some job
unfolding Redis.get read new_redis_job_store Redis.reap_stale Redis.create Redis.update insert
    lookup new_job written
job_found = refl

job_stuck : is_stuck job (10 * minute) ≡ true
unfolding written new_job
job_stuck = refl

-- What HandleSubmit writes into the job that Create has returned is not stored: the URL that came with
-- the request stays empty in Redis.
callback_url_lost :
    let (r, js) = Redis.create store_as_is load_as_is "a" 1 fresh in
    let mine : JobState = record js { callback_url = "https://example.com/done" } in
    (mine.callback_url ≡ "https://example.com/done")
    × (Redis.get store_as_is load_as_is "a" r ≡ some (new_job "a" 1))
unfolding Redis.get read new_redis_job_store Redis.create insert lookup new_job
callback_url_lost = (refl, refl)

reap_write_after_update_example :
    Redis.get store_as_is load_as_is "a" (
      reap_write store_as_is load_as_is
        (key with_job "a")
        (reap_read store_as_is load_as_is 3 (10 * minute) (key with_job "a") with_job)
        (Redis.update store_as_is load_as_is "a" completed (some "done") "" (10 * minute) with_job))
    ≡ some (reaped 3 (10 * minute) job)
reap_write_after_update_example =
    reap_write_after_update store_as_is load_as_is (λ js. refl) "a" "done" 3 (10 * minute) job
      with_job job_found job_stuck
