-- ===== src/Jobs/Nats/Failures.antt =====
-- runtime/async_store_nats.go: what a reap does where some calls of the bucket are refused.
use sdk_api.Base.{
  ℕ, subst, String, ◌≡◌, refl, sym, ap, ◌∙◌, ◌⊎◌, inl, inr, Bool, true, false, ◌&&◌, ◌||◌, Option,
  none, some, List, [], ◌∷◌, arith, ◌==◌, ==_iff, nat_eq, string_eq, if◌then◌else◌, Bool-cases,
  lookup-insert, contains,
}
use sdk_api.Jobs.Store.{status_eq, JobState, is_stuck, reaped}
use sdk_api.Jobs.Store.Wellformed.{map_found, reap_job}
use sdk_api.Jobs.Store.Keyed.{reap_job-reap_job, done_twice}
use sdk_api.Jobs.Nats
use sdk_api.Jobs.Nats.{
  NatsJobStore, Answers, new_nats_job_store, kv_put, kv_delete, held, written, list_keys, reap_due,
  reap_found, reap_id, reap_ids, is_old_job, cleanup_ids,
}

-- A key whose job is read and written.
abbrev pub answered : Answers → String → Bool
answered a id = a.gets id && a.puts id

module _ {W : Type 0} (marshal : JobState → W) (unmarshal : W → Option JobState)
    (trips : (js : JobState) → unmarshal (marshal js) ≡ some js) (a : Answers) where
  held-kv_put :
      (id j : String) (js : JobState) (s : NatsJobStore W)
      → held marshal unmarshal a j (kv_put marshal unmarshal a id js s)
        ≡ (if a.puts id && id == j then some js else held marshal unmarshal a j s)
  unfolding held kv_put
  held-kv_put id j js s = ground (arith, lookup-insert id j (marshal js) s.values, trips js)

  reap_found-reap_job :
      (max_retries now : ℕ) (o : Option JobState)
      → ((reap_found marshal unmarshal a max_retries now o ≡ none)
          × (map_found (reap_job max_retries now) o ≡ o))
        ⊎ ((js : JobState) × (reap_found marshal unmarshal a max_retries now o ≡ some js)
            × (map_found (reap_job max_retries now) o ≡ some js))
  unfolding reap_found reap_due reaped
  reap_found-reap_job max_retries now none = inl (refl, refl)
  reap_found-reap_job max_retries now (some js) = elim (Bool-cases (is_stuck js now)) [
    | inl stuck ↦ inr (reaped max_retries now js, ground arith, ground arith)
    | inr other ↦ inl (ground arith, ground arith)
  ]

  same_under {ℓ} :
      {A : Type ℓ} {x y : A} (p c : Bool) → (c ≡ true → x ≡ y) → y ≡ (if c && p then x else y)
  same_under true true e = sym (e refl)
  same_under true false e = refl
  same_under false true e = refl
  same_under false false e = refl

  never_under {ℓ} : {A : Type ℓ} {y : A} (x : A) (c : Bool) → y ≡ (if c && false then x else y)
  never_under x true = refl
  never_under x false = refl

  under_both {ℓ} :
      {A : Type ℓ} {x z : A} (y : A) (p c : Bool)
      → (c ≡ true → x ≡ z)
      → (if p && c then z else y) ≡ (if c && p then x else y)
  under_both y true true e = sym (e refl)
  under_both y true false e = refl
  under_both y false true e = refl
  under_both y false false e = refl

  reap_id_passed :
      (max_retries now : ℕ) (id : String) (s : NatsJobStore W)
      → reap_found marshal unmarshal a max_retries now (Nats.get marshal unmarshal a id s) ≡ none
      → (reap_id marshal unmarshal a max_retries now id s).0 ≡ s
  unfolding reap_id
  reap_id_passed max_retries now id s e = rw (reap_id, e) refl

  reap_id_due :
      (max_retries now : ℕ) (id : String) (js : JobState) (s : NatsJobStore W)
      → reap_found marshal unmarshal a max_retries now (Nats.get marshal unmarshal a id s) ≡ some js
      → (reap_id marshal unmarshal a max_retries now id s).0 ≡ kv_put marshal unmarshal a id js s
  unfolding reap_id
  reap_id_due max_retries now id js s e = rw (reap_id, e) refl

  get_read :
      (id : String) (s : NatsJobStore W)
      → a.gets id ≡ true
      → Nats.get marshal unmarshal a id s ≡ held marshal unmarshal a id s
  unfolding Nats.get
  get_read id s e = rw (Nats.get, e) refl

  get_unread :
      (id : String) (s : NatsJobStore W)
      → a.gets id ≡ false
      → Nats.get marshal unmarshal a id s ≡ none
  unfolding Nats.get
  get_unread id s e = rw (Nats.get, e) refl

  held-reap_id :
      (max_retries now : ℕ) (id j : String) (s : NatsJobStore W)
      → held marshal unmarshal a j (reap_id marshal unmarshal a max_retries now id s).0 ≡ (
          if id == j && answered a id
          then map_found (reap_job max_retries now) (held marshal unmarshal a j s)
          else held marshal unmarshal a j s)
  unfolding reap_found
  held-reap_id max_retries now id j s =
      let job : String → Option JobState = λ i. held marshal unmarshal a i s in
      let found : Option JobState → Option JobState =
        reap_found marshal unmarshal a max_retries now in
      let reap : Option JobState → Option JobState = map_found (reap_job max_retries now) in
      elim (Bool-cases (a.gets id)) [
        | inl read ↦ elim (reap_found-reap_job max_retries now (job id)) [
          | inl (none_due, same) ↦
              ap (held marshal unmarshal a j)
                (reap_id_passed max_retries now id s (ap found (get_read id s read) ∙ none_due))
              ∙ rw read (
                  same_under (a.puts id) (id == j)
                    (λ e. subst (λ i. reap (job i) ≡ job i) ((==_iff id j).0 e) same))
          | inr (js, due, is) ↦
              ap (held marshal unmarshal a j)
                (reap_id_due max_retries now id js s (ap found (get_read id s read) ∙ due))
              ∙ held-kv_put id j js s
              ∙ rw read (
                  under_both (job j) (a.puts id) (id == j)
                    (λ e. subst (λ i. reap (job i) ≡ some js) ((==_iff id j).0 e) is))
        ]
        | inr unread ↦
            ap (held marshal unmarshal a j)
              (reap_id_passed max_retries now id s (ap found (get_unread id s unread) ∙ refl))
            ∙ rw unread (never_under _ (id == j))
      ]

  same_at : (id j : String) → (id == j && answered a id) ≡ (id == j && answered a j)
  same_at id j = elim (Bool-cases (id == j)) [
    | inl same ↦ rw same (ap (answered a) ((==_iff id j).0 same))
    | inr other ↦ rw other refl
  ]

  either_and : (b c d : Bool) → (b && d || c && d) ≡ ((b || c) && d)
  either_and true true true = refl
  either_and true true false = refl
  either_and true false true = refl
  either_and true false false = refl
  either_and false c d = refl

  held-reap_ids :
      (max_retries now : ℕ) (ids : List String) (j : String) (s : NatsJobStore W)
      → held marshal unmarshal a j (reap_ids marshal unmarshal a max_retries now ids s).0 ≡ (
          if contains ids j && answered a j
          then map_found (reap_job max_retries now) (held marshal unmarshal a j s)
          else held marshal unmarshal a j s)
  unfolding reap_ids contains
  held-reap_ids max_retries now [] j s = refl
  held-reap_ids max_retries now (id ∷ ids) j s =
      let s' = (reap_id marshal unmarshal a max_retries now id s).0 in
      let job = held marshal unmarshal a j s in
      let reap : Option JobState → Option JobState = map_found (reap_job max_retries now) in
      held-reap_ids max_retries now ids j s'
      ∙ done_twice (id == j && answered a j) (contains ids j && answered a j) reap job _
          (held-reap_id max_retries now id j s
            ∙ ap (λ (b : Bool). if b then reap job else job) (same_at id j))
          (reap_job-reap_job max_retries now job)
      ∙ ap (λ (b : Bool). if b then reap job else job)
          (either_and (id == j) (contains ids j) (answered a j))

  -- Whichever reads and writes of the bucket are refused, ReapStale leaves every job in the bucket
  -- as it was or, where its key is listed and its read and its write are accepted, as the reap of
  -- the store in memory makes it. A job that is marshalled is unmarshalled as it was.
  pub held-reap_stale :
      (max_retries now : ℕ) (ids : List String) (j : String) (s : NatsJobStore W)
      → a.keys ≡ some ids
      → held marshal unmarshal a j (Nats.reap_stale marshal unmarshal a max_retries now s).0 ≡ (
          if contains ids j && answered a j
          then map_found (reap_job max_retries now) (held marshal unmarshal a j s)
          else held marshal unmarshal a j s)
  unfolding Nats.reap_stale held
  held-reap_stale max_retries now ids j s listed =
      rw (Nats.reap_stale, listed) (held-reap_ids max_retries now ids j s)
