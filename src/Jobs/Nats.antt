-- ===== src/Jobs/Nats.antt =====
-- runtime/async_store_nats.go: natsKVJobStore. Each call of the key-value bucket is answered or refused,
-- which is a parameter (`Answers`), and so is encoding/json, with the type of what it writes.
pub mod Failures
pub mod Counting
mod Tests
use sdk_api.Base.{
  ℕ, subst, zero, suc, ◌+◌, ◌-◌, ◌*◌, ◌≤◌, ◌<◌, ◌/◌, ◌%◌, ◌^◌, String, ◌≡◌, refl, sym, ap, ◌∙◌, ◌≢◌,
  ◌↔◌, ◌⊎◌, inl, inr, Bool, true, false, not, ◌&&◌, ◌||◌, Option, none, some, List, [], ◌∷◌, ◌++◌,
  map, arith, ltb, leb, nat_beq, nat_beq_iff, Eq, ◌==◌, ==_iff, nat_eq, string_eq, if◌then◌else◌,
  Bool-cases, Option-cases, is_some, length, get_elem?, set, take, length-append, length-set,
  get_elem?-append_last, get_elem?-append_left, get_elem?-set_ne, get_elem?-set_self, All, Map,
  lookup, insert, delete, lookup-insert, lookup-delete, contains, contains-cons_self,
  contains-cons_of_contains, contains-cons_cases, IsMap, retain, kept, insert-IsMap, delete-IsMap,
  lookup-retain, retain-IsMap,
}
use sdk_api.Jobs.Store.{
  JobStatus, pending, processing, completed, failed, status_eq, JobState, new_job, minute, in_time,
}

-- `processingTimeout`, and what the bucket holds.
pub record NatsJobStore (W : Type 0) : Type 0 where
  pub processing_timeout : ℕ
  pub values : Map String W

-- Which keys the bucket reads, writes and deletes without an error, and what it lists (`none` for an error).
pub record Answers : Type 0 where
  pub gets : String → Bool
  pub puts : String → Bool
  pub deletes : String → Bool
  pub keys : Option (List String)

-- `newNATSKVJobStore`, on a bucket that holds these values.
unfoldable pub new_nats_job_store : {W : Type 0} → Map String W → NatsJobStore W
new_nats_job_store held = record { processing_timeout = 5 * minute; values = held }

module _ {W : Type 0} (marshal : JobState → W) (unmarshal : W → Option JobState) (a : Answers) where
  -- KVPut of the marshalled job.
  unfoldable pub kv_put : String → JobState → NatsJobStore W → NatsJobStore W
  kv_put id js s = if a.puts id then record s { values = insert id (marshal js) s.values } else s

  -- KVDelete.
  unfoldable pub kv_delete : String → NatsJobStore W → NatsJobStore W
  kv_delete id s = if a.deletes id then record s { values = delete id s.values } else s

  -- The job that a bucket holds.
  unfoldable pub held : String → NatsJobStore W → Option JobState
  held id s = elim (lookup id s.values) [ none ↦ none | some text ↦ unmarshal text ]

  -- `Get` and `Snapshot`.
  unfoldable pub get : String → NatsJobStore W → Option JobState
  get id s = if a.gets id then held id s else none

  -- `Create`.
  unfoldable pub create : String → ℕ → NatsJobStore W → NatsJobStore W × JobState
  create id now s = (kv_put id (new_job id now) s, new_job id now)

  -- What `Update` writes into the job that it has read.
  unfoldable pub written :
      JobStatus → Option String → String → (timeout now : ℕ) → JobState → JobState
  written status result err_msg timeout now js = record js {
    status = status;
    result = result;
    error = err_msg;
    updated_at = now;
    processing_deadline = if status == processing then some (now + timeout) else none;
  }

  -- `Update`.
  unfoldable pub update :
      String → JobStatus → Option String → String → ℕ → NatsJobStore W → NatsJobStore W
  update id status result err_msg now s = elim (get id s) [
    | none ↦ s
    | some js ↦ kv_put id (written status result err_msg s.processing_timeout now js) s
  ]

  -- `Delete`.
  unfoldable pub remove : String → NatsJobStore W → NatsJobStore W
  remove id s = kv_delete id s

  -- The loop of `List`.
  unfoldable pub list_keys : List String → NatsJobStore W → List JobState
  list_keys [] s = []
  list_keys (id ∷ ids) s =
      let rest = list_keys ids s in elim (get id s) [ none ↦ rest | some js ↦ js ∷ rest ]

  -- `List`; `none` for its error.
  unfoldable pub list : NatsJobStore W → Option (List JobState)
  list s = elim a.keys [ none ↦ none | some ids ↦ some (list_keys ids s) ]

  -- A job that `ReapStale` is to write, if any.
  unfoldable pub reap_due : (max_retries now : ℕ) → JobState → Option JobState
  reap_due max_retries now js =
      if not (js.status == processing) || in_time js.processing_deadline now
      then none
      else some (
          if leb max_retries js.retry_count
          then record js {
            status = failed;
            error = "max retries exceeded";
            processing_deadline = none;
            updated_at = now;
          }
          else record js {
            status = pending;
            retry_count = js.retry_count + 1;
            processing_deadline = none;
            updated_at = now;
          })

  unfoldable pub reap_found : (max_retries now : ℕ) → Option JobState → Option JobState
  reap_found max_retries now none = none
  reap_found max_retries now (some js) = reap_due max_retries now js

  -- The body of the loop of `ReapStale`: the bucket, and what is added to the count.
  unfoldable pub reap_id : (max_retries now : ℕ) → String → NatsJobStore W → NatsJobStore W × ℕ
  reap_id max_retries now id s = elim (reap_found max_retries now (get id s)) [
    | none ↦ (s, 0)
    | some js ↦ (kv_put id js s, if a.puts id then 1 else 0)
  ]

  unfoldable pub reap_ids :
      (max_retries now : ℕ) → List String → NatsJobStore W → NatsJobStore W × ℕ
  reap_ids max_retries now [] s = (s, 0)
  reap_ids max_retries now (id ∷ ids) s =
      let first = reap_id max_retries now id s in
      let rest = reap_ids max_retries now ids first.0 in (rest.0, first.1 + rest.1)

  -- `ReapStale`; `none` for its error.
  unfoldable pub reap_stale : (max_retries now : ℕ) → NatsJobStore W → NatsJobStore W × Option ℕ
  reap_stale max_retries now s = elim a.keys [
    | none ↦ (s, none)
    | some ids ↦ let done = reap_ids max_retries now ids s in (done.0, some done.1)
  ]

  -- The test of `Cleanup`.
  unfoldable pub is_old_job : (ttl now : ℕ) → Option JobState → Bool
  is_old_job ttl now none = false
  is_old_job ttl now (some js) =
      (js.status == completed || js.status == failed) && ltb (js.updated_at + ttl) now

  unfoldable pub cleanup_ids : (ttl now : ℕ) → List String → NatsJobStore W → NatsJobStore W × ℕ
  cleanup_ids ttl now [] s = (s, 0)
  cleanup_ids ttl now (id ∷ ids) s =
      let old = is_old_job ttl now (get id s) in
      let rest = cleanup_ids ttl now ids (if old then kv_delete id s else s) in
      (rest.0, (if old then 1 else 0) + rest.1)

  -- `Cleanup`; `none` for its error.
  unfoldable pub cleanup : (ttl now : ℕ) → NatsJobStore W → NatsJobStore W × Option ℕ
  cleanup ttl now s = elim a.keys [
    | none ↦ (s, none)
    | some ids ↦ let done = cleanup_ids ttl now ids s in (done.0, some done.1)
  ]
