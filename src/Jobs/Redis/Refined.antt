-- ===== src/Jobs/Redis/Refined.antt =====
-- runtime/async_store_redis.go: the store on Redis answers as the store in memory does.
use sdk_api.Base.{
  ℕ, String, ◌≡◌, refl, sym, ap, ◌∙◌, Option, none, some, List, ◌==◌, nat_eq, string_eq,
  if◌then◌else◌, Map, lookup,
}
use sdk_api.Jobs.Store
use sdk_api.Jobs.Store.{
  JobStatus, pending, processing, completed, failed, status_eq, JobState, JobStore, new_job, minute,
  in_time, is_stuck, reaped, is_old, updated, new_memory_job_store,
}
use sdk_api.Jobs.Store.Wellformed
use sdk_api.Jobs.Store.Wellformed.{
  map_found, reap_job, get-create, get-reap_stale, get-cleanup, IsValid,
  new_memory_job_store-IsValid, create-IsValid, update-IsValid, remove-IsValid, reap_stale-IsValid,
  cleanup-IsValid,
}
use sdk_api.Jobs.Redis
use sdk_api.Jobs.Redis.{
  RedisJobStore, new_redis_job_store, concat, key, put, read, written, reap_read, reap_write,
  reap_key, is_old_key, cleanup_key,
}
use sdk_api.Jobs.Redis.Reads.{kept_old}
use sdk_api.Jobs.Redis.Gets.{
  Scanned, get-put, get-remove, get-update, update-processing_timeout, reap_stale-SameStore,
  cleanup-SameStore, get-reap_stale_keys, get-cleanup_keys, kept_old-kept,
}

module _ {W : Type 0} (marshal : JobState → W) (unmarshal : W → Option JobState) where
  -- A history of calls on the two stores, at the same times.
  pub data Histories : RedisJobStore W → JobStore → Type 0 where
    starts :
        (prefix : String) (held : Map String W)
        → ((id : String) → Redis.get marshal unmarshal id (new_redis_job_store prefix held) ≡ none)
        → Histories (new_redis_job_store prefix held) new_memory_job_store
    creates :
        {r : RedisJobStore W} {s : JobStore} (id : String) (now : ℕ)
        → Histories r s
        → Histories (Redis.create marshal unmarshal id now r).0 (Store.create id now s)
    updates :
        {r : RedisJobStore W} {s : JobStore} (id : String) (status : JobStatus)
        (result : Option String) (msg : String) (now : ℕ)
        → Histories r s
        → Histories
            (Redis.update marshal unmarshal id status result msg now r)
            (Store.update id status result msg now s)
    removes :
        {r : RedisJobStore W} {s : JobStore} (id : String)
        → Histories r s
        → Histories (Redis.remove marshal unmarshal id r) (Store.remove id s)
    reaps :
        {r : RedisJobStore W} {s : JobStore} (max_retries now : ℕ) (keys : List String)
        → Scanned marshal unmarshal keys r
        → Histories r s
        → Histories
            (Redis.reap_stale marshal unmarshal max_retries now keys r).0
            (Store.reap_stale max_retries now s).0
    cleans :
        {r : RedisJobStore W} {s : JobStore} (ttl now : ℕ) (keys : List String)
        → Scanned marshal unmarshal keys r
        → Histories r s
        → Histories (Redis.cleanup marshal unmarshal ttl now keys r).0 (Store.cleanup ttl now s).0

  -- The two stores hold the same jobs.
  pub record Agrees (r : RedisJobStore W) (s : JobStore) : Type 0 where
    pub same_timeout : r.processing_timeout ≡ s.processing_timeout
    pub valid : IsValid s
    pub same_jobs : (id : String) → Redis.get marshal unmarshal id r ≡ Store.get id s

module _ {W : Type 0} (marshal : JobState → W) (unmarshal : W → Option JobState)
    (trips : (js : JobState) → unmarshal (marshal js) ≡ some js) where
  create-Agrees :
      (r : RedisJobStore W) (s : JobStore) (id : String) (now : ℕ)
      → Agrees marshal unmarshal r s
      → Agrees marshal unmarshal (Redis.create marshal unmarshal id now r).0 (Store.create id now s)
  unfolding Redis.create
  create-Agrees r s id now a = record {
    same_timeout = unfold Store.create in a.same_timeout;
    valid = create-IsValid id now s a.valid;
    same_jobs = λ j.
        get-put marshal unmarshal trips id j (new_job id now) r
        ∙ ap (λ o. if id == j then some (new_job id now) else o) (a.same_jobs j)
        ∙ sym (get-create id j now s);
  }

  remove-Agrees :
      (r : RedisJobStore W) (s : JobStore) (id : String)
      → Agrees marshal unmarshal r s
      → Agrees marshal unmarshal (Redis.remove marshal unmarshal id r) (Store.remove id s)
  remove-Agrees r s id a = record {
    same_timeout = unfold Store.remove Redis.remove in a.same_timeout;
    valid = remove-IsValid id s a.valid;
    same_jobs = λ j.
        get-remove marshal unmarshal trips id j r
        ∙ ap (λ o. if id == j then none else o) (a.same_jobs j)
        ∙ sym (Wellformed.get-remove id j s);
  }

  update-Agrees :
      (r : RedisJobStore W) (s : JobStore) (id : String) (status : JobStatus)
      (result : Option String) (msg : String) (now : ℕ)
      → Agrees marshal unmarshal r s
      → Agrees marshal unmarshal
          (Redis.update marshal unmarshal id status result msg now r)
          (Store.update id status result msg now s)
  unfolding written updated
  update-Agrees r s id status result msg now a = record {
    same_timeout =
        update-processing_timeout marshal unmarshal trips id status result msg now r
        ∙ a.same_timeout
        ∙ sym (Wellformed.update-processing_timeout id status result msg now s);
    valid = update-IsValid id status result msg now s a.valid;
    same_jobs = λ j.
        get-update marshal unmarshal trips id j status result msg now r
        ∙ rw (a.same_jobs id, a.same_jobs j, a.same_timeout) refl
        ∙ sym (Wellformed.get-update id j status result msg now s);
  }

  histories-Agrees :
      {r : RedisJobStore W} {s : JobStore}
      → Histories marshal unmarshal r s
      → Agrees marshal unmarshal r s
  histories-Agrees (starts prefix held empty) = record {
    same_timeout = unfold new_redis_job_store new_memory_job_store in refl;
    valid = new_memory_job_store-IsValid;
    same_jobs = λ id. empty id ∙ unfold new_memory_job_store Store.get lookup in refl;
  }
  histories-Agrees (creates id now h) = create-Agrees _ _ id now (histories-Agrees h)
  histories-Agrees (updates id status result msg now h) =
      update-Agrees _ _ id status result msg now (histories-Agrees h)
  histories-Agrees (removes id h) = remove-Agrees _ _ id (histories-Agrees h)
  histories-Agrees (reaps {r} {s} max_retries now keys all h) =
      let a = histories-Agrees h in
      record {
        same_timeout =
            (reap_stale-SameStore marshal unmarshal trips max_retries now keys r).1
            ∙ a.same_timeout
            ∙ (unfold Store.reap_stale in refl);
        valid = reap_stale-IsValid max_retries now s a.valid;
        same_jobs = λ id.
            get-reap_stale_keys marshal unmarshal trips max_retries now keys r id all
            ∙ ap (map_found (reap_job max_retries now)) (a.same_jobs id)
            ∙ sym (get-reap_stale max_retries now id s);
      }
  histories-Agrees (cleans {r} {s} ttl now keys all h) =
      let a = histories-Agrees h in
      record {
        same_timeout =
            (cleanup-SameStore marshal unmarshal trips ttl now keys r).1
            ∙ a.same_timeout
            ∙ (unfold Store.cleanup in refl);
        valid = cleanup-IsValid ttl now s a.valid;
        same_jobs = λ id.
            get-cleanup_keys marshal unmarshal trips ttl now keys r id all
            ∙ ap (kept_old ttl now) (a.same_jobs id)
            ∙ kept_old-kept marshal unmarshal trips ttl now id _
            ∙ sym (get-cleanup ttl now id s a.valid.keys);
      }

  -- Two new stores, one on a Redis that holds no job under the prefix and one in memory, answer Get
  -- in the same way after any history of the same calls of Create, Update, Delete, ReapStale and
  -- Cleanup at the same times, where a job that is marshalled is unmarshalled as it was and the
  -- scans of a reap or a cleanup give the key of every job.
  pub histories_same_jobs :
      {r : RedisJobStore W} {s : JobStore} (id : String)
      → Histories marshal unmarshal r s
      → Redis.get marshal unmarshal id r ≡ Store.get id s
  histories_same_jobs id h = (histories-Agrees h).same_jobs id
