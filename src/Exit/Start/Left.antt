-- ===== src/Exit/Start/Left.antt =====
-- runtime/exit.go: which goroutines of ExitWorkerManager.Start still run after Shutdown.
use sdk_api.Exit.{max_concurrent}
use sdk_api.Exit.Start.{
  ExitWorker, StartError, subscribe_failed, Goroutines, Started, Outcome, spawn, shutdown,
}
use sdk_api.Base.{
  ℕ, suc, ◌≤◌, ◌<◌, ◌≡◌, ◌⊎◌, inl, inr, Bool, true, false, Option, none, some, List, nat_eq,
  string_eq, if◌then◌else◌, length, get_elem?, All,
}

-- The goroutines wait on channels of workerStates that have been made.
abbrev pub Older : Goroutines → Type 0
Older g = All (λ s. s < g.made) g.loops

-- The error of a broker that refuses the subscription.
abbrev pub refused : StartError → Bool
refused subscribe_failed = true
refused _ = false

-- What runs after the goroutines of one more worker have been started.
abbrev spawned : ExitWorker → Goroutines → Goroutines
spawned cfg g = record {
  made = suc g.made;
  loops = spawn (max_concurrent cfg.max_concurrency) g.made g.loops;
}

-- What one round of the loop of Start does.
abbrev Round : ExitWorker → Goroutines → Goroutines → StartError ⊎ Started → Type 0
Round cfg g g' (inl e) = g' ≡ (if refused e then spawned cfg g else g)
Round cfg g g' (inr w) = (w.state ≡ g.made) × (g' ≡ spawned cfg g)

-- What is left after an error, of the definition `defs[n]`.
abbrev pub Remains : Bool → List ExitWorker → Goroutines → ℕ → List ℕ → Type 0
Remains true defs g n left =
    (cfg : ExitWorker) × (state : ℕ) × (get_elem? defs n ≡ some cfg)
    × (g.made ≤ state)
    × (left ≡ spawn (max_concurrent cfg.max_concurrency) state g.loops)
Remains false defs g n left = left ≡ g.loops

abbrev pub Left : List ExitWorker → Goroutines → ℕ → Option StartError → List ℕ → Type 0
Left defs g n none left = (n ≡ length defs) × (left ≡ g.loops)
Left defs g n (some e) left = Remains (refused e) defs g n left

abbrev Ends : List ExitWorker → Goroutines → Outcome → Type 0
Ends defs g o = Left defs g (length o.workers) o.error (shutdown o.workers o.goroutines.loops)
