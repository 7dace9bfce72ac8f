-- ===== src/Jobs/Manager/Lifecycle.antt =====
-- runtime/async_job.go: the life of a job under the steps of the manager, and cancelling.
use sdk_api.Base.{
  ℕ, String, ◌≡◌, refl, ap, ◌∙◌, ◌≢◌, ◌⊎◌, inl, inr, none, some, arith, ◌==◌, ==_iff, nat_eq,
  string_eq, if◌then◌else◌, Bool-cases, Option-cases, lookup,
}
use sdk_api.Jobs.Store.{
  pending, processing, completed, failed, status_eq, JobState, JobStore, new_job, updated, reaped,
  get, remove,
}
use sdk_api.Jobs.Store.Wellformed.{get-update, get-remove, get-cleanup, map_found, reap_job}
use sdk_api.Jobs.Manager.{
  queued, running, Manager, Outcome, done, broke, prepared, submit, dispatch, start, finish,
  release, handle_cancel, Step, submits, dispatches, starts, finishes, releases, cancels, deletes,
  cleans, reaps, Response, no_content, not_found, conflict,
}
use sdk_api.Jobs.Manager.Invariant.{Inv, get_of_insert, Fits-at, handle_cancel_cases}
use sdk_api.Jobs.Manager.Reachable.{reaper_tick_old}

-- How one step may change a job that it leaves in the store.
pub record Lawful (js js' : JobState) : Type 0 where
  -- A completed job stays as it is.
  pub final : js.status ≡ completed → js' ≡ js
  -- Processing begins from pending only.
  pub begun : js'.status ≡ processing → (js.status ≡ pending) ⊎ (js' ≡ js)
  -- A failed job is never pending or processing again.
  pub not_back : js.status ≡ failed → (js'.status ≡ failed) ⊎ (js'.status ≡ completed)

Lawful-refl : (js js' : JobState) → js' ≡ js → Lawful js js'
Lawful-refl js js' e = record {
  final = λ _. e;
  begun = λ _. inr e;
  not_back = λ f. inl (ap (λ (x : JobState). x.status) e ∙ f);
}

same_job :
    (id : String) (s : JobStore) (js js' : JobState)
    → get id s ≡ some js
    → get id s ≡ some js'
    → Lawful js js'
same_job id s js js' e e' = Lawful-refl js js' (ground arith)

submit-Lawful :
    (m : Manager) (sid url : String) (now : ℕ) (id : String) (js js' : JobState)
    → get sid m.store ≡ none
    → get id m.store ≡ some js
    → get id (submit sid url now m).store ≡ some js'
    → Lawful js js'
unfolding submit
submit-Lawful m sid url now id js js' new e e' = Lawful-refl js js' (
    ground (
      arith,
      get_of_insert sid id (prepared url m.max_retry (new_job sid now)) m.store,
      ==_iff sid id,
    ))

start-Lawful :
    (m : Manager) (sid : String) (now : ℕ) (id : String) (js js' : JobState)
    → Inv m
    → lookup sid m.workers ≡ some queued
    → get id m.store ≡ some js
    → get id (start sid now m).store ≡ some js'
    → Lawful js js'
unfolding start
start-Lawful m sid now id js js' v at e e' = elim (Bool-cases (sid == id)) [
  | inl same ↦
      let is : sid ≡ id = (==_iff sid id).0 same in
      let was : js.status ≡ pending = Fits-at m v sid queued js at (rw is e) in
      record {
        final = λ f. absurd (ground arith);
        begun = λ _. inl was;
        not_back = λ f. absurd (ground arith);
      }
  | inr other ↦
      Lawful-refl js js' (ground (arith, get-update sid id processing none "" now m.store))
]

finished : Outcome → ℕ → ℕ → JobState → JobState
finished (done result) timeout now js = updated completed result "" timeout now js
finished (broke message) timeout now js = updated failed none message timeout now js

get-finish :
    (sid id : String) (o : Outcome) (now : ℕ) (m : Manager)
    → get id (finish sid o now m).store ≡ (
        if sid == id
        then map_found (finished o m.store.processing_timeout now) (get sid m.store)
        else get id m.store)
unfolding finish finished
get-finish sid id (done result) now m = get-update sid id completed result "" now m.store
get-finish sid id (broke message) now m = get-update sid id failed none message now m.store

finished_status :
    (o : Outcome) (timeout now : ℕ) (js : JobState)
    → ((finished o timeout now js).status ≡ failed)
      ⊎ ((finished o timeout now js).status ≡ completed)
unfolding finished updated
finished_status (done result) timeout now js = inr refl
finished_status (broke message) timeout now js = inl refl

finish-Lawful :
    (m : Manager) (sid : String) (o : Outcome) (now : ℕ) (id : String) (js js' : JobState)
    → Inv m
    → lookup sid m.workers ≡ some running
    → get id m.store ≡ some js
    → get id (finish sid o now m).store ≡ some js'
    → Lawful js js'
finish-Lawful m sid o now id js js' v at e e' = elim (Bool-cases (sid == id)) [
  | inl same ↦
      let is : sid ≡ id = (==_iff sid id).0 same in
      let e0 : get sid m.store ≡ some js = rw is e in
      let was = Fits-at m v sid running js at e0 in
      let result : js' ≡ finished o m.store.processing_timeout now js =
        ground (arith, get-finish sid id o now m) in
      let outcome = finished_status o m.store.processing_timeout now js in
      record {
        final = λ f. absurd (was f);
        begun = λ f. ground arith;
        not_back = λ f. rw result outcome;
      }
  | inr other ↦ Lawful-refl js js' (ground (arith, get-finish sid id o now m))
]

delete-Lawful :
    (m : Manager) (sid id : String) (js js' : JobState)
    → get id m.store ≡ some js
    → get id (remove sid m.store) ≡ some js'
    → Lawful js js'
delete-Lawful m sid id js js' e e' =
    same_job id m.store js js' e (ground (arith, get-remove sid id m.store))

cancel-Lawful :
    (m : Manager) (sid id : String) (js js' : JobState)
    → get id m.store ≡ some js
    → get id (handle_cancel sid m).0.store ≡ some js'
    → Lawful js js'
cancel-Lawful m sid id js js' e e' = elim (handle_cancel_cases m sid) [
  | inl same ↦ same_job id m.store js js' e (rw same at e')
  | inr removed ↦ delete-Lawful m sid id js js' e (rw removed at e')
]

reap-Lawful : (max_retries now : ℕ) (js : JobState) → Lawful js (reap_job max_retries now js)
unfolding reaped
reap-Lawful max_retries now js = record {
  final = λ f. ground arith;
  begun = λ f. ground arith;
  not_back = λ f. ground arith;
}

-- Every step from a manager with the invariant leaves each job that stays in the store in a lawful
-- state: a completed job is not changed, processing begins from pending only, and a failed job is
-- not taken up again.
pub Step-Lawful :
    {m n : Manager} (st : Step m n) (id : String) (js js' : JobState)
    → Inv m
    → get id m.store ≡ some js
    → get id n.store ≡ some js'
    → Lawful js js'
Step-Lawful {m} (submits sid url now new free) id js js' v e e' =
    submit-Lawful m sid url now id js js' new e e'
Step-Lawful {m} (dispatches sid at free) id js js' v e e' =
    same_job id m.store js js' e (unfold dispatch in e')
Step-Lawful {m} (starts sid now at) id js js' v e e' = start-Lawful m sid now id js js' v at e e'
Step-Lawful {m} (finishes sid o now at) id js js' v e e' =
    finish-Lawful m sid o now id js js' v at e e'
Step-Lawful {m} (releases sid at) id js js' v e e' =
    same_job id m.store js js' e (unfold release in e')
Step-Lawful {m} (cancels sid) id js js' v e e' = cancel-Lawful m sid id js js' e e'
Step-Lawful {m} (deletes sid) id js js' v e e' = delete-Lawful m sid id js js' e e'
Step-Lawful {m} (cleans ttl now) id js js' v e e' =
    same_job id m.store js js' e (ground (arith, get-cleanup ttl now id m.store v.valid.keys))
Step-Lawful {m} (reaps max_retries ttl now) id js js' v e e' =
    let (old, found, same) = reaper_tick_old max_retries ttl now m.store id js' v.valid e' in
    let one : old ≡ js = ground arith in rw (same, one) (reap-Lawful max_retries now js)

-- `HandleCancel` answers 404 for an unknown job and 409 for one that is being processed, and then
-- changes nothing; any other job it removes, and no other, and answers 204.
pub handle_cancel_answers :
    (m : Manager) (id : String)
    → ((get id m.store ≡ none) × (handle_cancel id m ≡ (m, not_found)))
      ⊎ ((js : JobState) × (get id m.store ≡ some js)
          × (js.status ≡ processing)
          × (handle_cancel id m ≡ (m, conflict)))
      ⊎ ((js : JobState) × (get id m.store ≡ some js)
          × (js.status ≢ processing)
          × ((handle_cancel id m).1 ≡ no_content)
          × ((j : String)
              → get j (handle_cancel id m).0.store ≡ (if id == j then none else get j m.store)))
unfolding handle_cancel
handle_cancel_answers m id = elim (Option-cases (get id m.store)) [
  | inl missing ↦ inl (missing, rw (missing, handle_cancel))
  | inr (js, found) ↦ elim (Bool-cases (js.status == processing)) [
    | inl busy ↦
        inr (
          inl
            (js, found, (==_iff js.status processing).0 busy, rw (found, handle_cancel) (rw busy)))
    | inr free ↦
        let result : handle_cancel id m ≡ (record m { store = remove id m.store }, no_content) =
          rw (found, handle_cancel) (rw free) in
        inr (
          inr (
            js,
            found,
            λ e. absurd (ground arith),
            ap (λ (r : Manager × Response). r.1) result,
            λ j. rw result (get-remove id j m.store),
          ))
  ]
]
