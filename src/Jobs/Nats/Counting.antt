-- ===== src/Jobs/Nats/Counting.antt =====
-- runtime/async_store_nats.go: what a cleanup counts where some deletions are refused.
use sdk_api.Base.{
  ℕ, ◌+◌, String, ◌≡◌, refl, ap, ◌∙◌, Bool, true, false, Option, some, List, [], ◌∷◌, arith, ◌==◌,
  ==_iff, nat_eq, string_eq, if◌then◌else◌, lookup-delete, contains,
}
use sdk_api.Jobs.Store.{status_eq, JobState}
use sdk_api.Jobs.Nats
use sdk_api.Jobs.Nats.{
  NatsJobStore, Answers, new_nats_job_store, kv_put, kv_delete, held, written, list_keys, reap_due,
  reap_found, reap_id, reap_ids, is_old_job, cleanup_ids,
}

-- Each of them once.
abbrev pub Distinct : List String → Type 0
Distinct [] = Unit
Distinct (id ∷ ids) = (contains ids id ≡ false) × Distinct ids

-- The number of jobs that a cleanup is to delete.
pub old_ids :
    {W : Type 0} (marshal : JobState → W) (unmarshal : W → Option JobState)
    → Answers
    → (ttl now : ℕ) → List String
    → NatsJobStore W
    → ℕ
old_ids marshal unmarshal a ttl now [] s = 0
old_ids marshal unmarshal a ttl now (id ∷ ids) s =
    let rest = old_ids marshal unmarshal a ttl now ids s in
    (if is_old_job marshal unmarshal a ttl now (Nats.get marshal unmarshal a id s) then 1 else 0)
    + rest

module _ {W : Type 0} (marshal : JobState → W) (unmarshal : W → Option JobState) (a : Answers) where
  get-kv_delete :
      (id j : String) (s : NatsJobStore W)
      → (id == j) ≡ false
      → Nats.get marshal unmarshal a j (kv_delete marshal unmarshal a id s)
        ≡ Nats.get marshal unmarshal a j s
  unfolding Nats.get kv_delete held
  get-kv_delete id j s other = ground (arith, lookup-delete id j s.values)

  get-cleaned :
      (b : Bool) (id j : String) (s : NatsJobStore W)
      → (id == j) ≡ false
      → Nats.get marshal unmarshal a j (if b then kv_delete marshal unmarshal a id s else s)
        ≡ Nats.get marshal unmarshal a j s
  get-cleaned true id j s other = get-kv_delete id j s other
  get-cleaned false id j s other = refl

  old_ids-cleaned :
      (ttl now : ℕ) (b : Bool) (id : String) (ids : List String) (s : NatsJobStore W)
      → contains ids id ≡ false
      → old_ids marshal unmarshal a ttl now ids
          (if b then kv_delete marshal unmarshal a id s else s)
        ≡ old_ids marshal unmarshal a ttl now ids s
  unfolding old_ids contains
  old_ids-cleaned ttl now b id [] s absent = refl
  old_ids-cleaned ttl now b id (j ∷ ids) s absent =
      let other : (id == j) ≡ false = ground (arith, absent, ==_iff id j, ==_iff j id) in
      let later : contains ids id ≡ false = ground (arith, absent) in
      rw (get-cleaned b id j s other, old_ids-cleaned ttl now b id ids s later) refl

  cleanup_ids-old_ids :
      (ttl now : ℕ) (ids : List String) (s : NatsJobStore W)
      → Distinct ids
      → (cleanup_ids marshal unmarshal a ttl now ids s).1
        ≡ old_ids marshal unmarshal a ttl now ids s
  unfolding cleanup_ids old_ids
  cleanup_ids-old_ids ttl now [] s distinct = refl
  cleanup_ids-old_ids ttl now (id ∷ ids) s (absent, distinct) =
      let old = is_old_job marshal unmarshal a ttl now (Nats.get marshal unmarshal a id s) in
      ap (λ n. (if old then 1 else 0) + n)
        (cleanup_ids-old_ids ttl now ids _ distinct ∙ old_ids-cleaned ttl now old id ids s absent)

  -- Deletions that are refused are counted too.
  pub cleanup_counts_refused :
      (ttl now : ℕ) (ids : List String) (s : NatsJobStore W)
      → a.keys ≡ some ids
      → Distinct ids
      → (Nats.cleanup marshal unmarshal a ttl now s).1
        ≡ some (old_ids marshal unmarshal a ttl now ids s)
  unfolding Nats.cleanup old_ids Nats.get held is_old_job
  cleanup_counts_refused ttl now ids s listed distinct =
      rw (Nats.cleanup, listed) (ap some (cleanup_ids-old_ids ttl now ids s distinct))
