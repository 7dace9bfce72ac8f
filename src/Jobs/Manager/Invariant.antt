-- ===== src/Jobs/Manager/Invariant.antt =====
-- runtime/async_job.go: the invariant of the manager, and that every step keeps it.
use sdk_api.Base.{
  ℕ, ◌≤◌, String, ◌≡◌, refl, sym, ◌∙◌, ◌≢◌, ◌⊎◌, inl, inr, true, false, Option, none, some, arith,
  ◌==◌, ==_iff, nat_eq, string_eq, if◌then◌else◌, Bool-cases, Option-cases, lookup, insert,
  lookup-insert, lookup-delete, IsMap, insert-IsMap, delete-IsMap,
}
use sdk_api.Jobs.Store
use sdk_api.Jobs.Store.{
  JobStatus, pending, processing, completed, failed, status_eq, JobState, JobStore, new_job,
  updated, reaped, is_stuck, get, create, remove, update, reap_stale, cleanup,
}
use sdk_api.Jobs.Store.Wellformed.{
  IsValid, new_memory_job_store-IsValid, update-IsValid, remove-IsValid, cleanup-IsValid,
  get-update, get-remove, get-cleanup,
}
use sdk_api.Jobs.Manager.{
  Stage, waiting, queued, running, notifying, Manager, in_flight, has_slot, Outcome, done, broke,
  prepared, submit, dispatch, start, finish, release, handle_cancel, new_manager,
}
use sdk_api.Jobs.Manager.Slots.{in_flight-insert_new, in_flight-insert_old, in_flight-delete_le}

-- Where a job may stand while its goroutine is in a stage: it is still pending before the goroutine
-- has started, and it is completed only when the processor has returned.
abbrev pub Fits : Option Stage → JobStatus → Type 0
Fits (some waiting) status = status ≡ pending
Fits (some queued) status = status ≡ pending
Fits (some running) status = status ≢ completed
Fits (some notifying) status = Unit
Fits none status = Unit

pub record Inv (m : Manager) : Type 0 where
  pub valid : IsValid m.store
  pub worker_keys : IsMap m.workers
  pub slots : (c : ℕ) → m.capacity ≡ some c → in_flight m.workers ≤ c
  pub fits :
      (id : String) (js : JobState)
      → get id m.store ≡ some js
      → Fits (lookup id m.workers) js.status

pub new_manager-Inv : (max_retry : ℕ) (capacity : Option ℕ) → Inv (new_manager max_retry capacity)
unfolding new_manager Store.new_memory_job_store get lookup
new_manager-Inv max_retry capacity = record {
  valid = new_memory_job_store-IsValid;
  worker_keys = tt;
  slots = λ c e. unfold in_flight in (omega arith);
  fits = λ id js e. cc;
}

-- The stage of one goroutine changes, and the jobs of the others do not.
module _ (m : Manager) (v : Inv m) (id : String) (w : Stage) (s : JobStore) where
  abbrev moved : Manager
  moved = record m { store = s; workers = insert id w m.workers }

  moved-Inv :
      IsValid s
      → ((c : ℕ) → m.capacity ≡ some c → in_flight (insert id w m.workers) ≤ c)
      → ((j : String) → (id == j) ≡ false → get j s ≡ get j m.store)
      → ((js : JobState) → get id s ≡ some js → Fits (some w) js.status)
      → Inv moved
  moved-Inv valid slots others own = record {
    valid = valid;
    worker_keys = insert-IsMap id w m.workers v.worker_keys;
    slots = slots;
    fits = λ j js e. elim (Bool-cases (id == j)) [
      | inl same ↦
          let e' : id ≡ j = (==_iff id j).0 same in
          rw lookup-insert (rw same (own js (rw (← e') at e)))
      | inr other ↦ rw lookup-insert (rw other (v.fits j js (sym (others j other) ∙ e)))
    ];
  }

pub get_of_insert :
    (id j : String) (js : JobState) (s : JobStore)
    → get j (record s { jobs = insert id js s.jobs }) ≡ (if id == j then some js else get j s)
unfolding get
get_of_insert id j js s = lookup-insert id j js s.jobs

pub submit-Inv :
    (m : Manager) (id url : String) (now : ℕ)
    → Inv m
    → lookup id m.workers ≡ none
    → Inv (submit id url now m)
unfolding submit Store.new_job
submit-Inv m id url now v new =
    moved-Inv m v id waiting _
      (record {
        keys = insert-IsMap id _ m.store.jobs v.valid.keys;
        deadlines = λ j js e. ground (
          arith,
          get_of_insert id j (prepared url m.max_retry (new_job id now)) m.store,
          v.valid.deadlines j js,
        );
      })
      (λ c e. omega (arith, in_flight-insert_new id waiting m.workers new, v.slots c e))
      (λ j other. rw get_of_insert (rw other))
      (λ js e. ground (
        arith,
        get_of_insert id id (prepared url m.max_retry (new_job id now)) m.store,
        ==_iff id id,
      ))

-- What a goroutine in a known stage says of its job.
pub Fits-at :
    (m : Manager) (v : Inv m) (id : String) (w : Stage) (js : JobState)
    → lookup id m.workers ≡ some w
    → get id m.store ≡ some js
    → Fits (some w) js.status
Fits-at m v id w js at e = rw at at (v.fits id js e)

pub dispatch-Inv :
    (m : Manager) (id : String)
    → Inv m
    → lookup id m.workers ≡ some waiting
    → has_slot m.capacity (in_flight m.workers) ≡ true
    → Inv (dispatch id m)
unfolding dispatch
dispatch-Inv m id v at free =
    moved-Inv m v id queued m.store v.valid
      (λ c e. ground (arith, in_flight-insert_old id queued waiting m.workers at)) (λ j other. refl)
      (λ js e. Fits-at m v id waiting js at e)

pub start-Inv :
    (m : Manager) (id : String) (now : ℕ)
    → Inv m
    → lookup id m.workers ≡ some queued
    → Inv (start id now m)
unfolding start
start-Inv m id now v at =
    moved-Inv m v id running _ (update-IsValid id processing none "" now m.store v.valid)
      (λ c e. omega (arith, in_flight-insert_old id running queued m.workers at, v.slots c e))
      (λ j other. rw get-update (rw other))
      (λ js e.
        unfold updated in
        (ground (arith, get-update id id processing none "" now m.store, ==_iff id id)))

pub finish-Inv :
    (m : Manager) (id : String) (o : Outcome) (now : ℕ)
    → Inv m
    → lookup id m.workers ≡ some running
    → Inv (finish id o now m)
unfolding finish
finish-Inv m id (done result) now v at =
    moved-Inv m v id notifying _ (update-IsValid id completed result "" now m.store v.valid)
      (λ c e. omega (arith, in_flight-insert_old id notifying running m.workers at, v.slots c e))
      (λ j other. rw get-update (rw other)) (λ js e. tt)
finish-Inv m id (broke message) now v at =
    moved-Inv m v id notifying _ (update-IsValid id failed none message now m.store v.valid)
      (λ c e. omega (arith, in_flight-insert_old id notifying running m.workers at, v.slots c e))
      (λ j other. rw get-update (rw other)) (λ js e. tt)

pub release-Inv : (m : Manager) (id : String) → Inv m → Inv (release id m)
unfolding release
release-Inv m id v = record {
  valid = v.valid;
  worker_keys = delete-IsMap id m.workers v.worker_keys;
  slots = λ c e. omega (arith, in_flight-delete_le id m.workers, v.slots c e);
  fits = λ j js e. elim (Bool-cases (id == j)) [
    | inl same ↦ rw lookup-delete (rw same tt)
    | inr other ↦ rw lookup-delete (rw other (v.fits j js e))
  ];
}

-- The store changes so that each job fits its goroutine, and the goroutines stay.
pub store-Inv :
    (m : Manager) (s : JobStore)
    → Inv m
    → IsValid s
    → ((id : String) (js : JobState) → get id s ≡ some js → Fits (lookup id m.workers) js.status)
    → Inv (record m { store = s })
store-Inv m s v valid fits = record {
  valid = valid;
  worker_keys = v.worker_keys;
  slots = v.slots;
  fits = fits;
}

-- `HandleCancel` changes nothing, or removes a job that is not being processed.
pub handle_cancel_cases :
    (m : Manager) (id : String)
    → ((handle_cancel id m).0 ≡ m)
      ⊎ ((handle_cancel id m).0 ≡ record m { store = remove id m.store })
unfolding handle_cancel
handle_cancel_cases m id = elim (Option-cases (get id m.store)) [
  | inl missing ↦ inl (rw (missing, handle_cancel))
  | inr (js, found) ↦ elim (Bool-cases (js.status == processing)) [
    | inl busy ↦ inl (rw (found, handle_cancel) (rw busy))
    | inr free ↦ inr (rw (found, handle_cancel) (rw free))
  ]
]

pub delete-Inv : (m : Manager) (id : String) → Inv m → Inv (record m { store = remove id m.store })
delete-Inv m id v =
    store-Inv m (remove id m.store) v (remove-IsValid id m.store v.valid)
      (λ j js e. v.fits j js (ground (arith, get-remove id j m.store)))

pub cancel-Inv : (m : Manager) (id : String) → Inv m → Inv (handle_cancel id m).0
cancel-Inv m id v = elim (handle_cancel_cases m id) [
  | inl same ↦ rw same v
  | inr removed ↦ rw removed (delete-Inv m id v)
]

pub clean-Inv :
    (m : Manager) (ttl now : ℕ) → Inv m → Inv (record m { store = (cleanup ttl now m.store).0 })
clean-Inv m ttl now v =
    store-Inv m _ v (cleanup-IsValid ttl now m.store v.valid)
      (λ j js e. v.fits j js (ground (arith, get-cleanup ttl now j m.store v.valid.keys)))
