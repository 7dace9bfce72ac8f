-- ===== src/Jobs/Store/Wellformed.antt =====
-- runtime/async_store.go: what each operation of the store does to each job, and the invariant that
-- all of them keep.
use sdk_api.Base.{
  ℕ, String, ◌≡◌, refl, inl, inr, not, Option, none, some, [], ◌∷◌, arith, ◌==◌, ==_iff, nat_eq,
  string_eq, if◌then◌else◌, Option-cases, is_some, Map, lookup, lookup-insert, lookup-delete, IsMap,
  kept, insert-IsMap, delete-IsMap, lookup-retain, retain-IsMap,
}
use sdk_api.Jobs.Store.{
  JobStatus, processing, status_eq, JobState, JobStore, new_memory_job_store, new_job, create, get,
  updated, update, remove, is_stuck, reaped, reap_jobs, reap_stale, is_old, cleanup,
}

-- What `update` leaves of a job, `reap` of a job.
abbrev pub map_found {ℓ} : {A : Type ℓ} → (A → A) → Option A → Option A
map_found f none = none
map_found f (some a) = some (f a)

abbrev pub reap_job : (max_retries now : ℕ) → JobState → JobState
reap_job max_retries now js = if is_stuck js now then reaped max_retries now js else js

pub get-create :
    (id j : String) (now : ℕ) (s : JobStore)
    → get j (create id now s) ≡ (if id == j then some (new_job id now) else get j s)
unfolding get create
get-create id j now s = lookup-insert id j (new_job id now) s.jobs

pub get-update :
    (id j : String) (status : JobStatus) (result : Option String) (msg : String) (now : ℕ)
    (s : JobStore)
    → get j (update id status result msg now s) ≡ (
        if id == j
        then map_found (updated status result msg s.processing_timeout now) (get id s)
        else get j s)
unfolding get update
get-update id j status result msg now s = elim (Option-cases (lookup id s.jobs)) [
  | inl missing ↦ ground (arith, ==_iff id j)
  | inr (js, found) ↦
      rw (found, update)
        (lookup-insert id j (updated status result msg s.processing_timeout now js) s.jobs)
]

pub get-remove :
    (id j : String) (s : JobStore) → get j (remove id s) ≡ (if id == j then none else get j s)
unfolding get remove
get-remove id j s = lookup-delete id j s.jobs

lookup-reap_jobs :
    (max_retries now : ℕ) (j : String) (jobs : Map String JobState)
    → lookup j (reap_jobs max_retries now jobs).0
      ≡ map_found (reap_job max_retries now) (lookup j jobs)
unfolding reap_jobs lookup
lookup-reap_jobs max_retries now j [] = refl
lookup-reap_jobs max_retries now j ((id, js) ∷ jobs) =
    ground (arith, lookup-reap_jobs max_retries now j jobs)

pub get-reap_stale :
    (max_retries now : ℕ) (j : String) (s : JobStore)
    → get j (reap_stale max_retries now s).0 ≡ map_found (reap_job max_retries now) (get j s)
unfolding get reap_stale
get-reap_stale max_retries now j s = lookup-reap_jobs max_retries now j s.jobs

pub get-cleanup :
    (ttl now : ℕ) (j : String) (s : JobStore)
    → IsMap s.jobs
    → get j (cleanup ttl now s).0 ≡ kept (λ id js. not (is_old ttl now js)) j (get j s)
unfolding get cleanup
get-cleanup ttl now j s h = lookup-retain (λ id js. not (is_old ttl now js)) j s.jobs h

-- A job has a deadline exactly while it is being processed.
abbrev pub HasDeadline : JobState → Type 0
HasDeadline js = is_some js.processing_deadline ≡ (js.status == processing)

pub record IsValid (s : JobStore) : Type 0 where
  pub keys : IsMap s.jobs
  pub deadlines : (id : String) (js : JobState) → get id s ≡ some js → HasDeadline js

pub new_memory_job_store-IsValid : IsValid new_memory_job_store
unfolding new_memory_job_store get lookup
new_memory_job_store-IsValid = record { keys = tt; deadlines = λ id js e. cc }

pub create-IsValid : (id : String) (now : ℕ) (s : JobStore) → IsValid s → IsValid (create id now s)
create-IsValid id now s v = record {
  keys = unfold create in (insert-IsMap id (new_job id now) s.jobs v.keys);
  deadlines = λ j js e. unfold new_job in (ground (arith, get-create id j now s, v.deadlines j js));
}

update_keys :
    (id : String) (status : JobStatus) (result : Option String) (msg : String) (now : ℕ)
    (s : JobStore)
    → IsMap s.jobs
    → IsMap (update id status result msg now s).jobs
unfolding update
update_keys id status result msg now s h = elim (Option-cases (lookup id s.jobs)) [
  | inl missing ↦ rw (missing, update) h
  | inr (js, found) ↦
      rw (found, update)
        (insert-IsMap id (updated status result msg s.processing_timeout now js) s.jobs h)
]

pub update-IsValid :
    (id : String) (status : JobStatus) (result : Option String) (msg : String) (now : ℕ)
    (s : JobStore)
    → IsValid s
    → IsValid (update id status result msg now s)
update-IsValid id status result msg now s v = record {
  keys = update_keys id status result msg now s v.keys;
  deadlines = λ j js e.
      unfold updated in (ground (arith, get-update id j status result msg now s, v.deadlines j js));
}

pub remove-IsValid : (id : String) (s : JobStore) → IsValid s → IsValid (remove id s)
remove-IsValid id s v = record {
  keys = unfold remove in (delete-IsMap id s.jobs v.keys);
  deadlines = λ j js e. ground (arith, get-remove id j s, v.deadlines j js);
}

reap_jobs-IsMap :
    (max_retries now : ℕ) (jobs : Map String JobState)
    → IsMap jobs
    → IsMap (reap_jobs max_retries now jobs).0
unfolding reap_jobs
reap_jobs-IsMap max_retries now [] h = tt
reap_jobs-IsMap max_retries now ((id, js) ∷ jobs) h =
    ground (arith, reap_jobs-IsMap max_retries now jobs, lookup-reap_jobs max_retries now id jobs)

pub reap_stale-IsValid :
    (max_retries now : ℕ) (s : JobStore) → IsValid s → IsValid (reap_stale max_retries now s).0
reap_stale-IsValid max_retries now s v = record {
  keys = unfold reap_stale in (reap_jobs-IsMap max_retries now s.jobs v.keys);
  deadlines = λ j js e. elim (Option-cases (get j s)) [
    | inl missing ↦ ground (arith, get-reap_stale max_retries now j s)
    | inr (old, found) ↦
        let was = v.deadlines j old found in
        unfold reaped in (ground (arith, get-reap_stale max_retries now j s))
  ];
}

pub cleanup-IsValid : (ttl now : ℕ) (s : JobStore) → IsValid s → IsValid (cleanup ttl now s).0
cleanup-IsValid ttl now s v = record {
  keys = unfold cleanup in (retain-IsMap _ s.jobs v.keys);
  deadlines = λ j js e. ground (arith, get-cleanup ttl now j s v.keys, v.deadlines j js);
}

pub update-processing_timeout :
    (id : String) (status : JobStatus) (result : Option String) (msg : String) (now : ℕ)
    (s : JobStore)
    → (update id status result msg now s).processing_timeout ≡ s.processing_timeout
unfolding update
update-processing_timeout id status result msg now s = elim (Option-cases (lookup id s.jobs)) [
  | inl missing ↦ rw (missing, update) refl
  | inr (js, found) ↦ rw (found, update) refl
]
