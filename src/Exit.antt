-- ===== src/Exit.antt =====
-- runtime/exit.go: the worker of an exit as a step relation: the goroutine that fetches, the goroutines
-- that process, the channel between them, and the shutdown. A message is its number.
pub mod Process
pub mod Start
pub mod Conserved
pub mod Bounds
pub mod Draining
pub mod Outcomes
mod Tests
use sdk_api.Base.{
  ℕ, subst, zero, suc, ◌+◌, ◌-◌, ◌*◌, ◌≤◌, ◌<◌, ◌/◌, ◌%◌, ◌^◌, String, ◌≡◌, refl, sym, ap, ◌∙◌, ◌≢◌,
  ◌↔◌, ◌⊎◌, inl, inr, Bool, true, false, not, ◌&&◌, ◌||◌, Option, none, some, List, [], ◌∷◌, ◌++◌,
  map, arith, ltb, leb, nat_beq, nat_beq_iff, Eq, ◌==◌, ==_iff, nat_eq, string_eq, if◌then◌else◌,
  Bool-cases, Option-cases, is_some, length, get_elem?, set, take, length-append, length-set,
  get_elem?-append_last, get_elem?-append_left, get_elem?-set_ne, get_elem?-set_self, All, Map,
  lookup, insert, delete, lookup-insert, lookup-delete, contains, contains-cons_self,
  contains-cons_of_contains, contains-cons_cases, IsMap, retain, kept, insert-IsMap, delete-IsMap,
  lookup-retain, retain-IsMap,
}

-- The calls that settle a message: Ack, Nak, Term.
pub data Settling : Type 0 where
  acked naked termed : Settling

-- A goroutine of `workerLoop`: in its select, with a task before the second select, inside
-- processTask, or returned.
pub data Slot : Type 0 where
  idle returned : Slot
  got processing : ℕ → Slot

-- The goroutine of `startExitWorker` that fetches: before fetchAndEnqueue, inside Fetch, in the loop
-- over the messages, inside enqueueMsg between its two selects, or returned.
pub data Producer : Type 0 where
  looping fetching stopped : Producer
  handing : List ℕ → Producer
  sending : ℕ → List ℕ → Producer

-- The channels, the goroutines, and what has been fetched and settled so far.
pub record Worker : Type 0 where
  pub capacity : ℕ
  pub batch : ℕ
  pub producer : Producer
  pub queue : List ℕ
  pub slots : List Slot
  pub shutdown : Bool
  pub tasks_closed : Bool
  pub panicked : Bool
  pub delivered : List ℕ
  pub settled : List (ℕ × Settling)

abbrev pub repeat : ℕ → Slot → List Slot
repeat zero s = []
repeat (suc n) s = s ∷ repeat n s

-- `maxConcurrent`, where the configuration gives `n`.
abbrev pub max_concurrent : ℕ → ℕ
max_concurrent n = if leb n 0 then 1 else n

-- The worker that `startExitWorker` starts.
unfoldable pub start_exit_worker : (max_concurrency pull_batch : ℕ) → Worker
start_exit_worker n pull_batch = record {
  capacity = max_concurrent n * 2;
  batch = if leb pull_batch 0 then 10 else pull_batch;
  producer = looping;
  queue = [];
  slots = repeat (max_concurrent n) idle;
  shutdown = false;
  tasks_closed = false;
  panicked = false;
  delivered = [];
  settled = [];
}

-- The counter `inFlight`.
abbrev pub in_flight : List Slot → ℕ
in_flight [] = 0
in_flight (processing m ∷ slots) = suc (in_flight slots)
in_flight (_ ∷ slots) = in_flight slots

abbrev pub settle : ℕ → Settling → Worker → Worker
settle m how w = record w { settled = (m, how) ∷ w.settled }

-- One step of one goroutine; `outcome` is how processTask settles a message.
pub data Step (outcome : ℕ → Settling) : Worker → Worker → Type 0 where
  -- fetchAndEnqueue: the first select.
  polls :
      {w : Worker}
      → w.producer ≡ looping
      → w.shutdown ≡ false
      → Step outcome w (record w { producer = fetching })
  stops :
      {w : Worker}
      → w.producer ≡ looping
      → w.shutdown ≡ true
      → Step outcome w (record w { producer = stopped })
  -- Fetch answers with at most as many messages as it was asked for, or fails.
  fetches :
      {w : Worker} (ms : List ℕ)
      → w.producer ≡ fetching
      → length ms ≤ w.batch
      → Step outcome w (record w { producer = handing ms; delivered = ms ++ w.delivered })
  fetch_fails :
      {w : Worker}
      → w.producer ≡ fetching
      → Step outcome w (record w { producer = if w.shutdown then stopped else looping })
  -- The loop over the messages, and the first select of enqueueMsg.
  batch_done :
      {w : Worker} → w.producer ≡ handing [] → Step outcome w (record w { producer = looping })
  refuses :
      {w : Worker} {m : ℕ} {ms : List ℕ}
      → w.producer ≡ handing (m ∷ ms)
      → w.shutdown ≡ true
      → Step outcome w (settle m naked (record w { producer = handing ms }))
  offers :
      {w : Worker} {m : ℕ} {ms : List ℕ}
      → w.producer ≡ handing (m ∷ ms)
      → w.shutdown ≡ false
      → Step outcome w (record w { producer = sending m ms })
  -- The second select of enqueueMsg; a send on a closed channel panics.
  enqueues :
      {w : Worker} {m : ℕ} {ms : List ℕ}
      → w.producer ≡ sending m ms
      → w.tasks_closed ≡ false
      → length w.queue < w.capacity
      → Step outcome w (record w { producer = handing ms; queue = w.queue ++ m ∷ [] })
  gives_up :
      {w : Worker} {m : ℕ} {ms : List ℕ}
      → w.producer ≡ sending m ms
      → w.shutdown ≡ true
      → Step outcome w (settle m naked (record w { producer = handing ms }))
  panics :
      {w : Worker} (m : ℕ) (ms : List ℕ)
      → w.producer ≡ sending m ms
      → w.tasks_closed ≡ true
      → Step outcome w (record w { panicked = true })
  -- workerLoop: the first select, then the second.
  takes :
      {w : Worker} {m : ℕ} {queue : List ℕ} (before behind : List Slot)
      → w.slots ≡ before ++ idle ∷ behind
      → w.queue ≡ m ∷ queue
      → Step outcome w (record w { slots = before ++ got m ∷ behind; queue = queue })
  returns :
      {w : Worker} (before behind : List Slot)
      → w.slots ≡ before ++ idle ∷ behind
      → w.shutdown ≡ true
      → Step outcome w (record w { slots = before ++ returned ∷ behind })
  drains :
      {w : Worker} {m : ℕ} (before behind : List Slot)
      → w.slots ≡ before ++ got m ∷ behind
      → w.shutdown ≡ true
      → Step outcome w (settle m naked (record w { slots = before ++ idle ∷ behind }))
  begins :
      {w : Worker} (m : ℕ) (before behind : List Slot)
      → w.slots ≡ before ++ got m ∷ behind
      → w.shutdown ≡ false
      → Step outcome w (record w { slots = before ++ processing m ∷ behind })
  finishes :
      {w : Worker} {m : ℕ} (before behind : List Slot)
      → w.slots ≡ before ++ processing m ∷ behind
      → Step outcome w (settle m (outcome m) (record w { slots = before ++ idle ∷ behind }))
  -- exitWorker.shutdown: once, and then the channel of tasks.
  shuts : {w : Worker} → w.shutdown ≡ false → Step outcome w (record w { shutdown = true })
  closes :
      {w : Worker}
      → w.shutdown ≡ true
      → w.tasks_closed ≡ false
      → Step outcome w (record w { tasks_closed = true })

-- The states that the steps reach; none follows a panic.
pub data Reach (outcome : ℕ → Settling) (start : Worker) : Worker → Type 0 where
  here : Reach outcome start start
  after :
      {w w' : Worker}
      → Reach outcome start w
      → w.panicked ≡ false
      → Step outcome w w'
      → Reach outcome start w'
