-- ===== src/Jobs/Manager.antt =====
-- runtime/async_job.go: AsyncJobManager. Each submitted job has a goroutine; the manager is a state
-- with the stage of every goroutine, and a step is what one goroutine, handler or the reaper does
-- between two points where others may run. The random ids are taken to be new. The channels of the
-- SSE subscribers are left out: a broadcast reads the store and changes no job. A processor is set.
pub mod Slots
pub mod Invariant
pub mod Reachable
pub mod Lifecycle
use sdk_api.Base.{
  ℕ, zero, suc, ◌+◌, ◌-◌, ◌*◌, ◌≤◌, ◌<◌, ◌/◌, ◌%◌, String, ◌≡◌, refl, sym, ap, ◌∙◌, ◌≢◌, ◌↔◌, ◌⊎◌,
  inl, inr, Bool, true, false, not, ◌&&◌, ◌||◌, Option, none, some, List, [], ◌∷◌, ◌++◌, map, arith,
  ltb, leb, nat_beq, nat_beq_iff, Eq, ◌==◌, ==_iff, nat_eq, string_eq, if◌then◌else◌, Bool-cases,
  Option-cases, is_some, length, get_elem?, set, take, length-append, length-set,
  get_elem?-append_last, get_elem?-append_left, get_elem?-set_ne, get_elem?-set_self, All, Map,
  lookup, insert, delete, lookup-insert, lookup-delete, contains, contains-cons_self,
  contains-cons_of_contains, contains-cons_cases, IsMap, retain, kept, insert-IsMap, delete-IsMap,
  lookup-retain, retain-IsMap,
}
use sdk_api.Jobs.Store
use sdk_api.Jobs.Store.{
  JobStatus, pending, processing, completed, failed, status_eq, JobState, JobStore,
  new_memory_job_store,
}

-- A goroutine of `HandleSubmit`: waiting for the semaphore, not yet started, in the processor, and
-- in the callback.
pub data Stage : Type 0 where
  waiting queued running notifying : Stage

pub record Manager : Type 0 where
  pub store : JobStore
  pub max_retry : ℕ
  -- The capacity of `sem`; `none` for a nil channel.
  pub capacity : Option ℕ
  pub workers : Map String Stage

-- The stages that hold a slot of the semaphore.
abbrev pub holds_slot : Stage → Bool
holds_slot waiting = false
holds_slot _ = true

unfoldable pub in_flight : Map String Stage → ℕ
in_flight [] = 0
in_flight ((id, w) ∷ ws) = (if holds_slot w then 1 else 0) + in_flight ws

-- `m.sem <- struct{}{}` goes through.
abbrev pub has_slot : Option ℕ → ℕ → Bool
has_slot none used = true
has_slot (some capacity) used = ltb used capacity

-- What the processor leaves: an error, or the result in its copy of the job.
pub data Outcome : Type 0 where
  done : (result : Option String) → Outcome
  broke : (message : String) → Outcome

-- The mutations of the new job that `HandleSubmit` makes before the goroutine starts.
unfoldable pub prepared : String → ℕ → JobState → JobState
prepared callback_url max_retry js = record js {
  callback_url = callback_url;
  max_retries = max_retry;
}

-- `HandleSubmit`, up to the semaphore; `callback_url` is "" where the body has none. What it writes
-- into the new job is one step with its creation.
unfoldable pub submit : (id callback_url : String) → ℕ → Manager → Manager
unfolding prepared
submit id callback_url now m = record m {
  store = record m.store {
    jobs = insert id (prepared callback_url m.max_retry (Store.new_job id now)) m.store.jobs;
  };
  workers = insert id waiting m.workers;
}

-- The slot is taken and the goroutine started.
unfoldable pub dispatch : String → Manager → Manager
dispatch id m = record m { workers = insert id queued m.workers }

-- The goroutine: `m.store.Update(id, JobProcessing, nil, "")`.
unfoldable pub start : String → ℕ → Manager → Manager
start id now m = record m {
  store = Store.update id processing none "" now m.store;
  workers = insert id running m.workers;
}

-- The two updates after the processor has returned.
unfoldable pub finish_store : String → Outcome → ℕ → JobStore → JobStore
finish_store id (done result) now s = Store.update id completed result "" now s
finish_store id (broke message) now s = Store.update id failed none message now s

unfoldable pub finish : String → Outcome → ℕ → Manager → Manager
unfolding finish_store
finish id o now m = record m {
  store = finish_store id o now m.store;
  workers = insert id notifying m.workers;
}

-- The deferred `<-m.sem`, after the callback.
unfoldable pub release : String → Manager → Manager
release id m = record m { workers = delete id m.workers }

pub data Response : Type 0 where
  no_content not_found conflict : Response
  ok : JobState → Response

-- `HandleStatus`.
unfoldable pub handle_status : String → Manager → Response
handle_status id m = elim (Store.get id m.store) [ none ↦ not_found | some js ↦ ok js ]

-- `HandleCancel`.
unfoldable pub handle_cancel : String → Manager → Manager × Response
handle_cancel id m = elim (Store.get id m.store) [
  | none ↦ (m, not_found)
  | some js ↦
      if js.status == processing
      then (m, conflict)
      else (record m { store = Store.remove id m.store }, no_content)
]

-- One tick of the Reaper: `ReapStale`, and `Cleanup` where a TTL is set.
unfoldable pub reaper_tick : (max_retries ttl now : ℕ) → JobStore → JobStore
reaper_tick max_retries ttl now s =
    let s' = (Store.reap_stale max_retries now s).0 in
    if ltb 0 ttl then (Store.cleanup ttl now s').0 else s'

-- What may happen next.
pub data Step (m : Manager) : Manager → Type 0 where
  submits :
      (id callback_url : String) (now : ℕ)
      → Store.get id m.store ≡ none
      → lookup id m.workers ≡ none
      → Step m (submit id callback_url now m)
  dispatches :
      (id : String)
      → lookup id m.workers ≡ some waiting
      → has_slot m.capacity (in_flight m.workers) ≡ true
      → Step m (dispatch id m)
  starts : (id : String) (now : ℕ) → lookup id m.workers ≡ some queued → Step m (start id now m)
  finishes :
      (id : String) (o : Outcome) (now : ℕ)
      → lookup id m.workers ≡ some running
      → Step m (finish id o now m)
  releases : (id : String) → lookup id m.workers ≡ some notifying → Step m (release id m)
  cancels : (id : String) → Step m (handle_cancel id m).0
  -- `HandleCancel` reads the job and deletes it in two calls of the store. Where another goroutine
  -- runs in between, the deletion meets a job in any state.
  deletes : (id : String) → Step m (record m { store = Store.remove id m.store })
  -- `Cleanup` of a tick, where another goroutine runs between it and `ReapStale`.
  cleans : (ttl now : ℕ) → Step m (record m { store = (Store.cleanup ttl now m.store).0 })
  reaps :
      (max_retries ttl now : ℕ)
      → Step m (record m { store = reaper_tick max_retries ttl now m.store })

pub data Reach (m : Manager) : Manager → Type 0 where
  here : Reach m m
  after : {n k : Manager} → Reach m n → Step n k → Reach m k

-- `NewAsyncJobManagerWithRetry`, and the semaphore of the configured size.
unfoldable pub new_manager : (max_retry : ℕ) → (capacity : Option ℕ) → Manager
new_manager max_retry capacity = record {
  store = new_memory_job_store;
  max_retry = max_retry;
  capacity = capacity;
  workers = [];
}
