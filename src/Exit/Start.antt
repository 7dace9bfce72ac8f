-- ===== src/Exit/Start.antt =====
-- runtime/exit.go: ExitWorkerManager.Start and startExitWorker with the goroutines of workerLoop that it
-- starts, ExitWorkerManager.Shutdown as far as it ends them, and ExitWorker.Validate of
-- runtime/config.go. Brokers and handlers are of any type, `none` is nil; whether a subscription
-- succeeds is a parameter.
pub mod Left
use sdk_api.Exit.{max_concurrent}
use sdk_api.Base.{
  ℕ, zero, suc, String, ◌⊎◌, inl, inr, Bool, ◌||◌, Option, none, some, List, [], ◌∷◌, ltb, ◌==◌,
  nat_eq, string_eq, if◌then◌else◌, Map, lookup,
}

-- The fields that the start reads.
pub record ExitWorker : Type 0 where
  pub name : String
  pub stream : String
  pub subject : String
  pub durable : String
  pub handler : String
  pub max_concurrency : ℕ
  pub reply : Bool
  pub pull_batch : ℕ
  pub pull_mode : Bool
  pub event_stream : String
  pub term_on_failure : Bool

-- `Validate`; `worker_name` is the name with "-worker" behind it.
unfoldable pub validate : (worker_name : String → String) → ExitWorker → Option ExitWorker
validate worker_name e =
    if e.name == "" || e.stream == "" || e.handler == ""
    then none
    else some (record e {
      subject = if e.subject == "" then e.stream else e.subject;
      durable = if e.durable == "" then worker_name e.name else e.durable;
      max_concurrency = if ltb e.max_concurrency 1 then 1 else e.max_concurrency;
    })

pub data StartError : Type 0 where
  event_stream_not_found no_broker handler_not_registered invalid handler_nil subscribe_failed :
      StartError

-- How many workerStates have been made, and for each goroutine of `workerLoop` that runs, the number
-- of the workerState whose shutdownCh it waits on.
pub record Goroutines : Type 0 where
  pub made : ℕ
  pub loops : List ℕ

-- An exitWorker: the validated configuration that it is made from, and its workerState.
pub record Started : Type 0 where
  pub config : ExitWorker
  pub state : ℕ

-- The workers that Start appends to `m.workers`, the goroutines then, and the error.
pub record Outcome : Type 0 where
  pub workers : List Started
  pub goroutines : Goroutines
  pub error : Option StartError

-- The loop `go workerLoop(ctx, state, …)`: `n` goroutines of one state.
abbrev pub spawn : ℕ → ℕ → List ℕ → List ℕ
spawn zero state loops = loops
spawn (suc n) state loops = state ∷ spawn n state loops

-- close(w.state.shutdownCh): the goroutines that wait on it return.
unfoldable pub close : ℕ → List ℕ → List ℕ
close state [] = []
close state (s ∷ loops) = if s == state then close state loops else s ∷ close state loops

-- `Shutdown`: the goroutines that still run after it.
unfoldable pub shutdown : List Started → List ℕ → List ℕ
shutdown [] loops = loops
shutdown (w ∷ ws) loops = shutdown ws (close w.state loops)

-- The result of one round of the loop of Start, and what the later rounds give.
abbrev pub with_round : Goroutines → StartError ⊎ Started → Outcome → Outcome
with_round g (inl e) rest = record { workers = []; goroutines = g; error = some e }
with_round g (inr w) rest = record rest { workers = w ∷ rest.workers }

-- A broker that is nil.
abbrev pub or_no_broker {ℓ} : {B : Type ℓ} → Option B → StartError ⊎ B
or_no_broker none = inl no_broker
or_no_broker (some b) = inr b

-- The broker of a definition; `first` is the one that the loop over the map meets first.
unfoldable pub broker_of {ℓ} :
    {B : Type ℓ} (first : Option B) → Map String (Option B) → ExitWorker → StartError ⊎ B
broker_of first brokers cfg =
    if cfg.event_stream == "" then or_no_broker first else elim (lookup cfg.event_stream brokers) [
      | none ↦ inl event_stream_not_found
      | some b ↦ or_no_broker b
    ]

-- `startExitWorker` after its checks: its goroutines start before it subscribes, whether it pulls or
-- is pushed to; the goroutine that fetches starts after it and is not counted.
unfoldable pub launch {ℓ} :
    {B : Type ℓ} (subscribes : B → ExitWorker → Bool)
    → B
    → ExitWorker
    → Goroutines
    → Goroutines × (StartError ⊎ Started)
launch subscribes broker e g = (
  record { made = suc g.made; loops = spawn (max_concurrent e.max_concurrency) g.made g.loops },
  if subscribes broker e then inr (record { config = e; state = g.made }) else inl subscribe_failed,
)

module _ {ℓ κ} {B : Type ℓ} {H : Type κ} (worker_name : String → String)
    (subscribes : B → ExitWorker → Bool) where
  -- `startExitWorker`, where `Validate` comes to the option.
  abbrev pub start_validated :
      B → Option ExitWorker → Option H → Goroutines → Goroutines × (StartError ⊎ Started)
  start_validated broker none handler g = (g, inl invalid)
  start_validated broker (some e) none g = (g, inl handler_nil)
  start_validated broker (some e) (some h) g = launch subscribes broker e g

  unfoldable pub start_worker :
      B → ExitWorker → Option H → Goroutines → Goroutines × (StartError ⊎ Started)
  start_worker broker cfg = start_validated broker (validate worker_name cfg)

  -- One round of the loop of `Start`, where the broker and the handler are looked up.
  abbrev pub start_with :
      StartError ⊎ B
      → Option (Option H)
      → ExitWorker
      → Goroutines
      → Goroutines × (StartError ⊎ Started)
  start_with (inl e) handler cfg g = (g, inl e)
  start_with (inr b) none cfg g = (g, inl handler_not_registered)
  start_with (inr b) (some h) cfg g = start_worker b cfg h g

  unfoldable pub start_one :
      (first : Option B)
      → Map String (Option B)
      → Map String (Option H)
      → ExitWorker
      → Goroutines
      → Goroutines × (StartError ⊎ Started)
  start_one first brokers handlers cfg =
      start_with (broker_of first brokers cfg) (lookup cfg.handler handlers) cfg

  -- `Start`.
  unfoldable pub start :
      (first : Option B)
      → Map String (Option B)
      → Map String (Option H)
      → List ExitWorker
      → Goroutines
      → Outcome
  start first brokers handlers [] g = record { workers = []; goroutines = g; error = none }
  start first brokers handlers (cfg ∷ defs) g =
      let round = start_one first brokers handlers cfg g in
      with_round round.0 round.1 (start first brokers handlers defs round.0)
