-- ===== src/Jobs/Redis.antt =====
-- runtime/async_store_redis.go: redisJobStore. A command of Redis is one step on its keys and values and
-- is answered without an error; encoding/json is a parameter with the type of what it writes, and so is the list of keys that a scan
-- gives.
pub mod Reads
pub mod Gets
pub mod Refined
pub mod Races
mod Tests
use Prim.Native.String
use sdk_api.Base.{
  ℕ, subst, zero, suc, ◌+◌, ◌-◌, ◌*◌, ◌≤◌, ◌<◌, ◌/◌, ◌%◌, ◌^◌, String, ◌≡◌, refl, sym, ap, ◌∙◌, ◌≢◌,
  ◌↔◌, ◌⊎◌, inl, inr, Bool, true, false, not, ◌&&◌, ◌||◌, Option, none, some, List, [], ◌∷◌, ◌++◌,
  map, arith, ltb, leb, nat_beq, nat_beq_iff, Eq, ◌==◌, ==_iff, nat_eq, string_eq, if◌then◌else◌,
  Bool-cases, Option-cases, is_some, length, get_elem?, set, take, length-append, length-set,
  get_elem?-append_last, get_elem?-append_left, get_elem?-set_ne, get_elem?-set_self, All, Map,
  lookup, insert, delete, lookup-insert, lookup-delete, contains, contains-cons_self,
  contains-cons_of_contains, contains-cons_cases, IsMap, retain, kept, insert-IsMap, delete-IsMap,
  lookup-retain, retain-IsMap,
}
use sdk_api.Jobs.Store.{
  JobStatus, pending, processing, completed, failed, status_eq, JobState, new_job, minute, in_time,
  is_stuck, reaped, is_old,
}

-- `prefix`, `processingTimeout`, and what Redis holds.
pub record RedisJobStore (W : Type 0) : Type 0 where
  pub prefix : String
  pub processing_timeout : ℕ
  pub values : Map String W

-- The first text with the second behind it.
abbrev pub concat : String → String → String
concat (String.◌∷◌ c s) t = String.◌∷◌ c (concat s t)
concat String.[] t = t

-- `newRedisJobStore`, on a Redis that holds these values.
unfoldable pub new_redis_job_store : {W : Type 0} → String → Map String W → RedisJobStore W
new_redis_job_store prefix held = record {
  prefix = prefix;
  processing_timeout = 5 * minute;
  values = held;
}

-- `key`.
abbrev pub key : {W : Type 0} → RedisJobStore W → String → String
key r id = concat r.prefix id

module _ {W : Type 0} (marshal : JobState → W) (unmarshal : W → Option JobState) where
  -- SET of the marshalled job.
  abbrev pub put : String → JobState → RedisJobStore W → RedisJobStore W
  put k js r = record r { values = insert k (marshal js) r.values }

  -- GET and json.Unmarshal.
  unfoldable pub read : String → RedisJobStore W → Option JobState
  read k r = elim (lookup k r.values) [ none ↦ none | some text ↦ unmarshal text ]

  -- `Create`: the job it returns is its own, and not what Redis holds.
  unfoldable pub create : String → ℕ → RedisJobStore W → RedisJobStore W × JobState
  create id now r = (put (key r id) (new_job id now) r, new_job id now)

  -- `Get` and `Snapshot`.
  unfoldable pub get : String → RedisJobStore W → Option JobState
  get id r = read (key r id) r

  -- What `Update` writes into the job that it has read.
  unfoldable pub written :
      JobStatus → Option String → String → (timeout now : ℕ) → JobState → JobState
  written status result err_msg timeout now js = record js {
    status = status;
    result = result;
    error = err_msg;
    updated_at = now;
    processing_deadline = if status == processing then some (now + timeout) else none;
  }

  -- `Update`.
  unfoldable pub update :
      String → JobStatus → Option String → String → ℕ → RedisJobStore W → RedisJobStore W
  update id status result err_msg now r = elim (get id r) [
    | none ↦ r
    | some js ↦ put (key r id) (written status result err_msg r.processing_timeout now js) r
  ]

  -- `Delete`.
  unfoldable pub remove : String → RedisJobStore W → RedisJobStore W
  remove id r = record r { values = delete (key r id) r.values }

  -- The loop of `List` over the keys of a scan.
  unfoldable pub list : List String → RedisJobStore W → List JobState
  list [] r = []
  list (k ∷ keys) r =
      let rest = list keys r in elim (read k r) [ none ↦ rest | some js ↦ js ∷ rest ]

  -- The body of the loop of `ReapStale` up to json.Marshal: what it is to write, if anything.
  unfoldable pub reap_read : (max_retries now : ℕ) → String → RedisJobStore W → Option JobState
  reap_read max_retries now k r = elim (read k r) [
    | none ↦ none
    | some js ↦
        if not (js.status == processing) || in_time js.processing_deadline now
        then none
        else some (
            if leb max_retries js.retry_count
            then record js {
              status = failed;
              error = "max retries exceeded";
              processing_deadline = none;
              updated_at = now;
            }
            else record js {
              status = pending;
              retry_count = js.retry_count + 1;
              processing_deadline = none;
              updated_at = now;
            })
  ]

  -- The write of that body.
  abbrev pub reap_write : String → Option JobState → RedisJobStore W → RedisJobStore W
  reap_write k none r = r
  reap_write k (some js) r = put k js r

  abbrev pub reap_key : (max_retries now : ℕ) → String → RedisJobStore W → RedisJobStore W
  reap_key max_retries now k r = reap_write k (reap_read max_retries now k r) r

  -- `ReapStale`, over the keys of its scans; `now` is read once.
  unfoldable pub reap_stale :
      (max_retries now : ℕ) → List String → RedisJobStore W → RedisJobStore W × ℕ
  reap_stale max_retries now [] r = (r, 0)
  reap_stale max_retries now (k ∷ keys) r =
      let rest = reap_stale max_retries now keys (reap_key max_retries now k r) in
      (rest.0, (if is_some (reap_read max_retries now k r) then 1 else 0) + rest.1)

  -- The test of `Cleanup`.
  unfoldable pub is_old_key : (ttl now : ℕ) → String → RedisJobStore W → Bool
  is_old_key ttl now k r = elim (read k r) [ none ↦ false | some js ↦ is_old ttl now js ]

  abbrev pub cleanup_key : (ttl now : ℕ) → String → RedisJobStore W → RedisJobStore W
  cleanup_key ttl now k r =
      if is_old_key ttl now k r then record r { values = delete k r.values } else r

  -- `Cleanup`, over the keys of its scans.
  unfoldable pub cleanup : (ttl now : ℕ) → List String → RedisJobStore W → RedisJobStore W × ℕ
  cleanup ttl now [] r = (r, 0)
  cleanup ttl now (k ∷ keys) r =
      let rest = cleanup ttl now keys (cleanup_key ttl now k r) in
      (rest.0, (if is_old_key ttl now k r then 1 else 0) + rest.1)
