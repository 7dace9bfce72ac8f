-- ===== src/Jobs/Redis/Races.antt =====
-- runtime/async_store_redis.go: what the store on Redis does differently, having no lock and no shared
-- job.
use sdk_api.Base.{
  ℕ, String, ◌≡◌, refl, ◌∙◌, true, Option, some, arith, ◌==◌, ==_iff, nat_eq, string_eq,
}
use sdk_api.Jobs.Store.{completed, status_eq, JobState, is_stuck, reaped}
use sdk_api.Jobs.Redis
use sdk_api.Jobs.Redis.{
  RedisJobStore, new_redis_job_store, concat, key, put, read, written, reap_read, reap_write,
  reap_key,
}
use sdk_api.Jobs.Redis.Gets.{get-put}

module _ {W : Type 0} (marshal : JobState → W) (unmarshal : W → Option JobState)
    (trips : (js : JobState) → unmarshal (marshal js) ≡ some js) where
  reap_read_stuck :
      (k : String) (max_retries now : ℕ) (js : JobState) (r : RedisJobStore W)
      → read marshal unmarshal k r ≡ some js
      → is_stuck js now ≡ true
      → reap_read marshal unmarshal max_retries now k r ≡ some (reaped max_retries now js)
  unfolding reap_read reaped
  reap_read_stuck k max_retries now js r found stuck = rw (reap_read, found) (ground (arith, stuck))

  update_found :
      (id result : String) (now : ℕ) (js : JobState) (r : RedisJobStore W)
      → Redis.get marshal unmarshal id r ≡ some js
      → Redis.update marshal unmarshal id completed (some result) "" now r
        ≡ put marshal unmarshal
            (key r id)
            (written marshal unmarshal completed (some result) "" r.processing_timeout now js)
            r
  unfolding Redis.update
  update_found id result now js r found = rw (Redis.update, found) refl

  self : (id : String) → (id == id) ≡ true
  self id = (==_iff id id).1 refl

  -- A job that ReapStale has read as stuck, and that is completed before ReapStale writes, is put
  -- back to what the reap makes of it: it is pending or failed, and its result is gone. A job that
  -- is marshalled is unmarshalled as it was.
  pub reap_write_after_update :
      (id result : String) (max_retries now : ℕ) (js : JobState) (r : RedisJobStore W)
      → Redis.get marshal unmarshal id r ≡ some js
      → is_stuck js now ≡ true
      → let found = reap_read marshal unmarshal max_retries now (key r id) r in
        let r' = Redis.update marshal unmarshal id completed (some result) "" now r in
        Redis.get marshal unmarshal id (reap_write marshal unmarshal (key r id) found r')
        ≡ some (reaped max_retries now js)
  reap_write_after_update id result max_retries now js r found stuck =
      let due = reap_read_stuck (key r id) max_retries now js r (unfold Redis.get in found) stuck in
      let put_js = reaped max_retries now js in
      rw (update_found id result now js r found, due)
        (get-put marshal unmarshal trips id id put_js (
            put marshal unmarshal (key r id)
              (written marshal unmarshal completed (some result) "" r.processing_timeout now js) r)
          ∙ rw (self id) refl)
