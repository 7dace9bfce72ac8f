-- ===== src/Jobs/Manager/Reachable.antt =====
-- runtime/async_job.go: every state of the manager that its steps can reach.
use sdk_api.Base.{
  ℕ, String, ◌≡◌, inl, inr, Option, none, some, arith, ltb, nat_eq, string_eq, Bool-cases,
  Option-cases, set, lookup,
}
use sdk_api.Jobs.Store.{status_eq, JobState, JobStore, reaped, get, reap_stale}
use sdk_api.Jobs.Store.Wellformed.{
  IsValid, reap_stale-IsValid, cleanup-IsValid, get-reap_stale, get-cleanup, reap_job,
}
use sdk_api.Jobs.Manager.{
  Stage, waiting, queued, running, notifying, Manager, reaper_tick, Step, submits, dispatches,
  starts, finishes, releases, cancels, deletes, cleans, reaps, Reach, here, after, new_manager,
}
use sdk_api.Jobs.Manager.Invariant.{
  Fits, Inv, new_manager-Inv, submit-Inv, dispatch-Inv, start-Inv, finish-Inv, release-Inv,
  store-Inv, delete-Inv, cancel-Inv, clean-Inv,
}

reaper_tick-IsValid :
    (max_retries ttl now : ℕ) (s : JobStore)
    → IsValid s
    → IsValid (reaper_tick max_retries ttl now s)
unfolding reaper_tick
reaper_tick-IsValid max_retries ttl now s v =
    let v' = reap_stale-IsValid max_retries now s v in
    elim (Bool-cases (ltb 0 ttl)) [
      | inl set ↦ rw set (cleanup-IsValid ttl now _ v')
      | inr unset ↦ rw unset v'
    ]

-- What a tick leaves of the jobs is what the reap has made of them.
pub reaper_tick_old :
    (max_retries ttl now : ℕ) (s : JobStore) (id : String) (js : JobState)
    → IsValid s
    → get id (reaper_tick max_retries ttl now s) ≡ some js
    → (old : JobState) × (get id s ≡ some old) × (js ≡ reap_job max_retries now old)
unfolding reaper_tick
reaper_tick_old max_retries ttl now s id js v e =
    let s' = (reap_stale max_retries now s).0 in
    let v' = reap_stale-IsValid max_retries now s v in
    let reaped_only : get id s' ≡ some js = elim (Bool-cases (ltb 0 ttl)) [
      | inl set ↦ ground (arith, get-cleanup ttl now id s' v'.keys)
      | inr unset ↦ ground arith
    ] in
    elim (Option-cases (get id s)) [
      | inl missing ↦ absurd (ground (arith, get-reap_stale max_retries now id s))
      | inr (old, found) ↦ (old, found, ground (arith, get-reap_stale max_retries now id s))
    ]

Fits-reap :
    (w : Option Stage) (max_retries now : ℕ) (old : JobState)
    → Fits w old.status
    → Fits w (reap_job max_retries now old).status
unfolding reaped
Fits-reap (some waiting) max_retries now old f = ground arith
Fits-reap (some queued) max_retries now old f = ground arith
Fits-reap (some running) max_retries now old f = ground arith
Fits-reap (some notifying) max_retries now old f = tt
Fits-reap none max_retries now old f = tt

reaper_tick-Inv :
    (m : Manager) (max_retries ttl now : ℕ)
    → Inv m
    → Inv (record m { store = reaper_tick max_retries ttl now m.store })
reaper_tick-Inv m max_retries ttl now v =
    store-Inv m _ v (reaper_tick-IsValid max_retries ttl now m.store v.valid) (λ id js e.
      let (old, found, same) = reaper_tick_old max_retries ttl now m.store id js v.valid e in
      rw same (Fits-reap (lookup id m.workers) max_retries now old (v.fits id old found)))

-- Every step of the manager keeps the invariant.
pub Step-Inv : {m n : Manager} → Step m n → Inv m → Inv n
Step-Inv {m} (submits id url now new free) v = submit-Inv m id url now v free
Step-Inv {m} (dispatches id at free) v = dispatch-Inv m id v at free
Step-Inv {m} (starts id now at) v = start-Inv m id now v at
Step-Inv {m} (finishes id o now at) v = finish-Inv m id o now v at
Step-Inv {m} (releases id at) v = release-Inv m id v
Step-Inv {m} (cancels id) v = cancel-Inv m id v
Step-Inv {m} (deletes id) v = delete-Inv m id v
Step-Inv {m} (cleans ttl now) v = clean-Inv m ttl now v
Step-Inv {m} (reaps max_retries ttl now) v = reaper_tick-Inv m max_retries ttl now v

pub Reach-Inv : {m n : Manager} → Reach m n → Inv m → Inv n
Reach-Inv here v = v
Reach-Inv (after r st) v = Step-Inv st (Reach-Inv r v)

-- Whatever submissions, goroutines, cancellations and reaps have happened since the manager was
-- made: the jobs have a deadline exactly while they are processed, no more goroutines hold a slot
-- of the semaphore than it has, and each job is in a state that its goroutine allows.
pub reach-Inv :
    (max_retry : ℕ) (capacity : Option ℕ) (m : Manager)
    → Reach (new_manager max_retry capacity) m
    → Inv m
reach-Inv max_retry capacity m r = Reach-Inv r (new_manager-Inv max_retry capacity)
