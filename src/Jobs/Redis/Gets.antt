-- ===== src/Jobs/Redis/Gets.antt =====
-- runtime/async_store_redis.go: what Get answers after each operation.
use sdk_api.Base.{
  ℕ, String, ◌≡◌, refl, sym, ap, ◌∙◌, inl, inr, true, not, Option, none, some, List, [], ◌∷◌, ◌==◌,
  ==_iff, nat_eq, string_eq, if◌then◌else◌, Bool-cases, Option-cases, contains, kept,
}
use sdk_api.Jobs.Store.{JobStatus, status_eq, JobState, is_old}
use sdk_api.Jobs.Store.Wellformed.{map_found, reap_job}
use sdk_api.Jobs.Redis
use sdk_api.Jobs.Redis.{
  RedisJobStore, new_redis_job_store, concat, key, put, read, written, reap_read, reap_write,
  reap_key, is_old_key, cleanup_key,
}
use sdk_api.Jobs.Redis.Reads.{
  key_beq, kept_old, read-put, read-reap_stale, read-delete, read-cleanup,
}

module _ {W : Type 0} (marshal : JobState → W) (unmarshal : W → Option JobState) where
  -- The keys of a scan: those of all jobs, and perhaps others, in any order and any number of times.
  abbrev pub Scanned : List String → RedisJobStore W → Type 0
  Scanned keys r =
      (id : String) (js : JobState)
      → Redis.get marshal unmarshal id r ≡ some js
      → contains keys (key r id) ≡ true

module _ {W : Type 0} (marshal : JobState → W) (unmarshal : W → Option JobState)
    (trips : (js : JobState) → unmarshal (marshal js) ≡ some js) where
  pub get-put :
      (id j : String) (js : JobState) (r : RedisJobStore W)
      → Redis.get marshal unmarshal j (put marshal unmarshal (key r id) js r)
        ≡ (if id == j then some js else Redis.get marshal unmarshal j r)
  unfolding Redis.get
  get-put id j js r =
      read-put marshal unmarshal trips (key r id) (key r j) js r
      ∙ ap (λ b. if b then some js else read marshal unmarshal (key r j) r) (key_beq r.prefix id j)

  pub get-remove :
      (id j : String) (r : RedisJobStore W)
      → Redis.get marshal unmarshal j (Redis.remove marshal unmarshal id r)
        ≡ (if id == j then none else Redis.get marshal unmarshal j r)
  unfolding Redis.get Redis.remove
  get-remove id j r =
      read-delete marshal unmarshal trips (key r id) (key r j) r
      ∙ ap (λ b. if b then none else read marshal unmarshal (key r j) r) (key_beq r.prefix id j)

  pub get-update :
      (id j : String) (status : JobStatus) (result : Option String) (msg : String) (now : ℕ)
      (r : RedisJobStore W)
      → Redis.get marshal unmarshal j (Redis.update marshal unmarshal id status result msg now r)
        ≡ (if id == j
            then map_found
                (written marshal unmarshal status result msg r.processing_timeout now)
                (Redis.get marshal unmarshal id r)
            else Redis.get marshal unmarshal j r)
  unfolding Redis.update
  get-update id j status result msg now r = elim (Option-cases (Redis.get marshal unmarshal id r)) [
    | inl missing ↦
        rw (Redis.update, missing)
          (elim (Bool-cases (id == j)) [
            | inl same ↦
                rw same
                  (ap (λ i. Redis.get marshal unmarshal i r) (sym ((==_iff id j).0 same)) ∙ missing)
            | inr other ↦ rw other refl
          ])
    | inr (js, found) ↦ rw (Redis.update, found) (get-put id j _ r)
  ]

  pub update-processing_timeout :
      (id : String) (status : JobStatus) (result : Option String) (msg : String) (now : ℕ)
      (r : RedisJobStore W)
      → (Redis.update marshal unmarshal id status result msg now r).processing_timeout
        ≡ r.processing_timeout
  unfolding Redis.update
  update-processing_timeout id status result msg now r =
      elim (Option-cases (Redis.get marshal unmarshal id r)) [
        | inl missing ↦ rw (Redis.update, missing) refl
        | inr (js, found) ↦ rw (Redis.update, found) refl
      ]

  -- Only the values differ.
  abbrev pub SameStore : RedisJobStore W → RedisJobStore W → Type 0
  SameStore r r' = (r'.prefix ≡ r.prefix) × (r'.processing_timeout ≡ r.processing_timeout)

  pub reap_write-SameStore :
      (k : String) (o : Option JobState) (r : RedisJobStore W)
      → SameStore r (reap_write marshal unmarshal k o r)
  reap_write-SameStore k none r = (refl, refl)
  reap_write-SameStore k (some js) r = (refl, refl)

  pub reap_stale-SameStore :
      (max_retries now : ℕ) (keys : List String) (r : RedisJobStore W)
      → SameStore r (Redis.reap_stale marshal unmarshal max_retries now keys r).0
  unfolding Redis.reap_stale
  reap_stale-SameStore max_retries now [] r = (refl, refl)
  reap_stale-SameStore max_retries now (k ∷ keys) r =
      let first = reap_write-SameStore k (reap_read marshal unmarshal max_retries now k r) r in
      let later =
        reap_stale-SameStore max_retries now keys
          (reap_key marshal unmarshal max_retries now k r) in
      (later.0 ∙ first.0, later.1 ∙ first.1)

  pub cleanup_key-SameStore :
      (ttl now : ℕ) (k : String) (r : RedisJobStore W)
      → SameStore r (cleanup_key marshal unmarshal ttl now k r)
  cleanup_key-SameStore ttl now k r = elim (Bool-cases (is_old_key marshal unmarshal ttl now k r)) [
    | inl old ↦ rw (cleanup_key, old) (refl, refl)
    | inr new ↦ rw (cleanup_key, new) (refl, refl)
  ]

  pub cleanup-SameStore :
      (ttl now : ℕ) (keys : List String) (r : RedisJobStore W)
      → SameStore r (Redis.cleanup marshal unmarshal ttl now keys r).0
  unfolding Redis.cleanup
  cleanup-SameStore ttl now [] r = (refl, refl)
  cleanup-SameStore ttl now (k ∷ keys) r =
      let first = cleanup_key-SameStore ttl now k r in
      let later = cleanup-SameStore ttl now keys (cleanup_key marshal unmarshal ttl now k r) in
      (later.0 ∙ first.0, later.1 ∙ first.1)

  -- Every job is at a key of the scan, so each of them is reaped.
  pub found_by_scan :
      (keys : List String) (f : Option JobState → Option JobState) (r : RedisJobStore W)
      (id : String)
      → Scanned marshal unmarshal keys r
      → f none ≡ none
      → (if contains keys (key r id)
          then f (Redis.get marshal unmarshal id r)
          else Redis.get marshal unmarshal id r)
        ≡ f (Redis.get marshal unmarshal id r)
  found_by_scan keys f r id all keeps = elim (Option-cases (Redis.get marshal unmarshal id r)) [
    | inl missing ↦
        rw (missing, keeps)
          (elim (Bool-cases (contains keys (key r id))) [
            | inl scanned ↦ rw scanned refl
            | inr passed ↦ rw passed refl
          ])
    | inr (js, found) ↦ rw (all id js found) refl
  ]

  pub get-reap_stale_keys :
      (max_retries now : ℕ) (keys : List String) (r : RedisJobStore W) (id : String)
      → Scanned marshal unmarshal keys r
      → Redis.get marshal unmarshal id (Redis.reap_stale marshal unmarshal max_retries now keys r).0
        ≡ map_found (reap_job max_retries now) (Redis.get marshal unmarshal id r)
  unfolding Redis.get
  get-reap_stale_keys max_retries now keys r id all =
      let r' = (Redis.reap_stale marshal unmarshal max_retries now keys r).0 in
      ap (λ p. read marshal unmarshal (concat p id) r')
        (reap_stale-SameStore max_retries now keys r).0
      ∙ read-reap_stale marshal unmarshal trips max_retries now keys (key r id) r
      ∙ found_by_scan keys (map_found (reap_job max_retries now)) r id all refl

  pub get-cleanup_keys :
      (ttl now : ℕ) (keys : List String) (r : RedisJobStore W) (id : String)
      → Scanned marshal unmarshal keys r
      → Redis.get marshal unmarshal id (Redis.cleanup marshal unmarshal ttl now keys r).0
        ≡ kept_old ttl now (Redis.get marshal unmarshal id r)
  unfolding Redis.get kept_old
  get-cleanup_keys ttl now keys r id all =
      let r' = (Redis.cleanup marshal unmarshal ttl now keys r).0 in
      ap (λ p. read marshal unmarshal (concat p id) r') (cleanup-SameStore ttl now keys r).0
      ∙ read-cleanup marshal unmarshal trips ttl now keys (key r id) r
      ∙ found_by_scan keys (kept_old ttl now) r id all refl

  pub kept_old-kept :
      (ttl now : ℕ) (id : String) (o : Option JobState)
      → kept_old ttl now o ≡ kept (λ id js. not (is_old ttl now js)) id o
  unfolding kept_old
  kept_old-kept ttl now id none = refl
  kept_old-kept ttl now id (some js) = refl
