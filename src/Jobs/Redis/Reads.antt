-- ===== src/Jobs/Redis/Reads.antt =====
-- runtime/async_store_redis.go: what a key reads as after each operation.
use sdk_api.Base.{
  ℕ, String, ◌≡◌, refl, ◌∙◌, ◌⊎◌, inl, inr, not, Option, none, some, List, [], ◌∷◌, arith, ◌==◌,
  ==_iff, nat_eq, string_eq, if◌then◌else◌, Bool-cases, Option-cases, delete, lookup-insert,
  lookup-delete, contains,
}
use sdk_api.Jobs.Store.{status_eq, JobState, is_stuck, reaped, is_old}
use sdk_api.Jobs.Store.Wellformed.{map_found, reap_job}
use sdk_api.Jobs.Store.Keyed.{if_at, at_itself, reap_job-reap_job, done_twice}
use sdk_api.Jobs.Redis
use sdk_api.Jobs.Redis.{
  RedisJobStore, concat, key, put, read, written, reap_read, reap_write, reap_key, is_old_key,
  cleanup_key,
}

-- The same texts behind one prefix are the same.
pub concat_cancels : (p a b : String) → concat p a ≡ concat p b → a ≡ b
concat_cancels String.[] a b e = e
concat_cancels (String.◌∷◌ c p) a b e = concat_cancels p a b (ground (arith, e))

pub key_beq : (p a b : String) → (concat p a == concat p b) ≡ (a == b)
key_beq p a b = ground (arith, ==_iff a b, ==_iff (concat p a) (concat p b), concat_cancels p a b)

unfoldable pub kept_old : (ttl now : ℕ) → Option JobState → Option JobState
kept_old ttl now none = none
kept_old ttl now (some js) = if not (is_old ttl now js) then some js else none

kept_old-kept_old :
    (ttl now : ℕ) (o : Option JobState) → kept_old ttl now (kept_old ttl now o) ≡ kept_old ttl now o
unfolding kept_old
kept_old-kept_old ttl now none = refl
kept_old-kept_old ttl now (some js) = ground arith

module _ {W : Type 0} (marshal : JobState → W) (unmarshal : W → Option JobState)
    (trips : (js : JobState) → unmarshal (marshal js) ≡ some js) where
  pub read-put :
      (k j : String) (js : JobState) (r : RedisJobStore W)
      → read marshal unmarshal j (put marshal unmarshal k js r)
        ≡ (if k == j then some js else read marshal unmarshal j r)
  unfolding read
  read-put k j js r = elim (Bool-cases (k == j)) [
    | inl same ↦ rw same (rw (read, lookup-insert k j (marshal js) r.values, same) (trips js))
    | inr other ↦ rw other (rw (read, lookup-insert k j (marshal js) r.values, other) refl)
  ]

  reap_read_cases :
      (max_retries now : ℕ) (k : String) (r : RedisJobStore W)
      → ((reap_read marshal unmarshal max_retries now k r ≡ none)
          × (map_found (reap_job max_retries now) (read marshal unmarshal k r)
              ≡ read marshal unmarshal k r))
        ⊎ ((js : JobState) × (reap_read marshal unmarshal max_retries now k r ≡ some js)
            × (map_found (reap_job max_retries now) (read marshal unmarshal k r) ≡ some js))
  unfolding reap_read reaped
  reap_read_cases max_retries now k r = elim (Option-cases (read marshal unmarshal k r)) [
    | inl missing ↦ inl (rw (reap_read, missing) refl, rw missing refl)
    | inr (js, found) ↦ elim (Bool-cases (is_stuck js now)) [
      | inl stuck ↦ inr (reaped max_retries now js, ground (arith, found), ground (arith, found))
      | inr other ↦ inl (ground (arith, found), ground (arith, found))
    ]
  ]

  -- What a key of a scan holds afterwards.
  read-reap_key :
      (max_retries now : ℕ) (k j : String) (r : RedisJobStore W)
      → read marshal unmarshal j (reap_key marshal unmarshal max_retries now k r) ≡ (
          if k == j
          then map_found (reap_job max_retries now) (read marshal unmarshal j r)
          else read marshal unmarshal j r)
  read-reap_key max_retries now k j r = elim (reap_read_cases max_retries now k r) [
    | inl (none_due, same) ↦ rw none_due (
        at_itself k j (λ i. map_found (reap_job max_retries now) (read marshal unmarshal i r))
          (λ i. read marshal unmarshal i r) same)
    | inr (js, due, is) ↦ rw due (
        read-put k j js r
        ∙ if_at k j (λ i. map_found (reap_job max_retries now) (read marshal unmarshal i r))
            (some js) _ is)
  ]

  pub read-reap_stale :
      (max_retries now : ℕ) (keys : List String) (j : String) (r : RedisJobStore W)
      → read marshal unmarshal j (Redis.reap_stale marshal unmarshal max_retries now keys r).0 ≡ (
          if contains keys j
          then map_found (reap_job max_retries now) (read marshal unmarshal j r)
          else read marshal unmarshal j r)
  unfolding Redis.reap_stale contains
  read-reap_stale max_retries now [] j r = refl
  read-reap_stale max_retries now (k ∷ keys) j r =
      let r' = reap_key marshal unmarshal max_retries now k r in
      read-reap_stale max_retries now keys j r'
      ∙ done_twice (k == j) (contains keys j) (map_found (reap_job max_retries now)) _ _
          (read-reap_key max_retries now k j r) (reap_job-reap_job max_retries now _)

  pub read-delete :
      (k j : String) (r : RedisJobStore W)
      → read marshal unmarshal j (record r { values = delete k r.values })
        ≡ (if k == j then none else read marshal unmarshal j r)
  unfolding read
  read-delete k j r = elim (Bool-cases (k == j)) [
    | inl same ↦ rw same (rw (read, lookup-delete k j r.values, same) refl)
    | inr other ↦ rw other (rw (read, lookup-delete k j r.values, other) refl)
  ]

  read-cleanup_key :
      (ttl now : ℕ) (k j : String) (r : RedisJobStore W)
      → read marshal unmarshal j (cleanup_key marshal unmarshal ttl now k r) ≡ (
          if k == j
          then kept_old ttl now (read marshal unmarshal j r)
          else read marshal unmarshal j r)
  unfolding kept_old is_old_key
  read-cleanup_key ttl now k j r = elim (Option-cases (read marshal unmarshal k r)) [
    | inl missing ↦
        rw (cleanup_key, is_old_key, missing)
          (at_itself k j (λ i. kept_old ttl now (read marshal unmarshal i r))
            (λ i. read marshal unmarshal i r) (rw missing refl))
    | inr (js, found) ↦ elim (Bool-cases (is_old ttl now js)) [
      | inl old ↦
          rw (cleanup_key, is_old_key, found, old)
            (read-delete k j r
              ∙ if_at k j (λ i. kept_old ttl now (read marshal unmarshal i r)) none _
                  (rw found (rw old refl)))
      | inr new ↦
          rw (cleanup_key, is_old_key, found, new)
            (at_itself k j (λ i. kept_old ttl now (read marshal unmarshal i r))
              (λ i. read marshal unmarshal i r) (rw found (rw new refl)))
    ]
  ]

  pub read-cleanup :
      (ttl now : ℕ) (keys : List String) (j : String) (r : RedisJobStore W)
      → read marshal unmarshal j (Redis.cleanup marshal unmarshal ttl now keys r).0 ≡ (
          if contains keys j
          then kept_old ttl now (read marshal unmarshal j r)
          else read marshal unmarshal j r)
  unfolding Redis.cleanup contains
  read-cleanup ttl now [] j r = refl
  read-cleanup ttl now (k ∷ keys) j r =
      read-cleanup ttl now keys j (cleanup_key marshal unmarshal ttl now k r)
      ∙ done_twice (k == j) (contains keys j) (kept_old ttl now) _ _
          (read-cleanup_key ttl now k j r) (kept_old-kept_old ttl now _)
