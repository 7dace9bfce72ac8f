-- ===== src/Jobs/Nats/Tests.antt =====
-- Runs of runtime/async_store_nats.go where a job is stored as it is, on a bucket that refuses what
-- concerns the job "b".
use sdk_api.Base.{
  String, ◌≡◌, refl, true, not, ◌&&◌, Option, some, [], ◌∷◌, ◌==◌, nat_eq, string_eq, if◌then◌else◌,
  lookup, insert, delete, contains,
}
use sdk_api.Jobs.Store.{JobStatus, processing, completed, status_eq, JobState, new_job, reaped}
use sdk_api.Jobs.Store.Wellformed.{map_found, reap_job}
use sdk_api.Jobs.Nats
use sdk_api.Jobs.Nats.{
  NatsJobStore, Answers, new_nats_job_store, kv_put, kv_delete, held, written, list_keys, reap_due,
  reap_found, reap_id, reap_ids, is_old_job, cleanup_ids,
}
use sdk_api.Jobs.Nats.Failures.{answered, held-reap_stale}

abbrev store_as_is : JobState → JobState
store_as_is js = js

abbrev load_as_is : JobState → Option JobState
load_as_is js = some js

abbrev not_b : Answers
not_b = record {
  gets = λ id. true;
  puts = λ id. not (id == "b");
  deletes = λ id. not (id == "b");
  keys = some ("a" ∷ "b" ∷ []);
}

abbrev job : JobStatus → String → JobState
job status id = record (new_job id 1) { status = status; processing_deadline = some 5 }

abbrev two : JobStatus → NatsJobStore JobState
two status = new_nats_job_store (("a", job status "a") ∷ ("b", job status "b") ∷ [])

-- The job whose write is refused stays stuck, and is not counted.
refused_write :
    let (s, count) = Nats.reap_stale store_as_is load_as_is not_b 3 9 (two processing) in
    (held store_as_is load_as_is not_b "a" s ≡ some (reap_job 3 9 (job processing "a")))
    × (held store_as_is load_as_is not_b "b" s ≡ some (job processing "b"))
    × (count ≡ some 1)
unfolding Nats.reap_stale reap_ids reap_id reap_found reap_due held kv_put new_nats_job_store
    Nats.get lookup insert new_job reaped
refused_write = (refl, refl, refl)

held-reap_stale_example :
    held store_as_is load_as_is not_b "b"
      (Nats.reap_stale store_as_is load_as_is not_b 3 9 (two processing)).0
    ≡ (if contains {K = String} ("a" ∷ "b" ∷ []) "b" && answered not_b "b"
        then map_found (reap_job 3 9) (held store_as_is load_as_is not_b "b" (two processing))
        else held store_as_is load_as_is not_b "b" (two processing))
held-reap_stale_example =
    held-reap_stale store_as_is load_as_is (λ js. refl) not_b 3 9 ("a" ∷ "b" ∷ []) "b"
      (two processing) refl

-- The job whose deletion is refused is counted, and stays.
refused_delete :
    let (s, count) = Nats.cleanup store_as_is load_as_is not_b 3 9 (two completed) in
    (held store_as_is load_as_is not_b "b" s ≡ some (job completed "b")) × (count ≡ some 2)
unfolding Nats.cleanup cleanup_ids is_old_job held kv_delete new_nats_job_store Nats.get lookup
    delete new_job
refused_delete = (refl, refl)
