-- ===== src/Exit/Tests.antt =====
-- Runs of runtime/exit.go on concrete configurations and messages.
use sdk_api.Base.{
  ℕ, ◌+◌, ◌*◌, ◌≤◌, String, ◌≡◌, refl, ◌⊎◌, true, false, Option, none, some, [], ◌∷◌, arith, ◌==◌,
  nat_eq, string_eq, length, Map, lookup,
}
use sdk_api.Base.Bytes.{Bytes, codes, bytes_eq}
use sdk_api.Exit.Conserved.{occurs, on_hand, settlings, reach_conserves}
use sdk_api.Exit.Bounds.{reach_bounds}
use sdk_api.Exit.Draining.{work, Run, done, next, CanStep, Final, shutdown_ends}
use sdk_api.Exit.Outcomes.{Reached, shutdown_panics, shutdown_leaves}
use sdk_api.Exit.Process.{
  handler, respond, settles, answer, handled, process_task, settlings_of, received, settling_for,
  process_task_settles,
}
use sdk_api.Exit.Start.Left.{Left}
use sdk_api.Exit.Start.{
  ExitWorker, Goroutines, validate, launch, start_worker, start_one, broker_of, start, close,
  shutdown,
}
use sdk_api.Exit.{
  Settling, acked, naked, idle, processing, handing, Worker, max_concurrent, start_exit_worker,
  in_flight, settle, polls, fetches, offers, enqueues, takes, begins, finishes, Reach, here, after,
}

abbrev always : ℕ → Settling
always m = acked

-- One of two goroutines has taken message 5 and processes it.
abbrev busy : Worker
busy = record {
  capacity = 4;
  batch = 1;
  producer = handing [];
  queue = [];
  slots = processing 5 ∷ idle ∷ [];
  shutdown = false;
  tasks_closed = false;
  panicked = false;
  delivered = 5 ∷ [];
  settled = [];
}

busy_of_Reach : Reach always (start_exit_worker 2 1) busy
unfolding start_exit_worker
busy_of_Reach =
    let fetched =
      after (after here refl (polls refl refl)) refl (fetches (5 ∷ []) refl (omega arith)) in
    let queued =
      after (after fetched refl (offers refl refl)) refl (enqueues refl refl (omega arith)) in
    let taken = after queued refl (takes [] (idle ∷ []) refl refl) in
    after taken refl (begins 5 [] (idle ∷ []) refl refl)

reach_conserves_example : occurs 5 busy.delivered ≡ on_hand 5 busy + settlings 5 busy.settled
reach_conserves_example = reach_conserves always 2 1 5 busy_of_Reach

reach_bounds_example :
    (in_flight busy.slots ≤ max_concurrent 2) × (length busy.queue ≤ max_concurrent 2 * 2)
reach_bounds_example = reach_bounds always 2 1 busy_of_Reach

abbrev told : Worker
told = record busy { shutdown = true }

abbrev later : Worker
later = settle 5 acked (record told { slots = idle ∷ idle ∷ [] })

told_of_Run : Run always 1 told later
told_of_Run = next refl (finishes [] (idle ∷ []) refl) done

shutdown_ends_example :
    (1 + work later ≤ work told) × ((later.panicked ≡ true) ⊎ (CanStep always later ⊎ Final later))
shutdown_ends_example = shutdown_ends always refl told_of_Run

shutdown_panics_example : (w : Worker) × Reached always 2 1 5 w × (w.panicked ≡ true)
shutdown_panics_example = shutdown_panics always 2 1 5

shutdown_leaves_example :
    (w : Worker) × Reached always 2 1 5 w
    × Final w
    × (occurs 5 w.queue ≡ 1)
    × (settlings 5 w.settled ≡ 0)
shutdown_leaves_example = shutdown_leaves always 2 1 5

abbrev mailer : ExitWorker
mailer = record {
  name = "mailer";
  stream = "mail";
  subject = "";
  durable = "";
  handler = "send";
  max_concurrency = 3;
  reply = true;
  pull_batch = 0;
  pull_mode = false;
  event_stream = "";
  term_on_failure = true;
}

abbrev echo : Bytes → Option Bytes
echo body = some body

process_task_settles_example :
    settlings_of echo (λ _. false) (process_task echo (λ _. false) mailer none (codes "hi"))
    ≡ settling_for echo (λ _. false) mailer (received echo (λ _. false) none (codes "hi")) ∷ []
process_task_settles_example = process_task_settles echo (λ _. false) mailer none (codes "hi")

-- A reply that fails is followed by Nak.
process_task_reply :
    process_task echo (λ _. false) mailer none (codes "hi")
    ≡ handler (codes "hi") ∷ respond (codes "hi") ∷ settles naked ∷ []
unfolding process_task handled answer
process_task_reply = refl

-- A worker that runs already, with one goroutine.
abbrev running : Goroutines
running = record { made = 1; loops = 0 ∷ [] }

abbrev mail_handlers : Map String (Option ℕ)
mail_handlers = ("send", some 7) ∷ []

-- The broker refuses the subscription: three goroutines are left.
refused_mailer :
    let o =
      start (λ n. n) (λ (b : ℕ) cfg. b == 1) (some 0) [] mail_handlers (mailer ∷ []) running in
    shutdown o.workers o.goroutines.loops ≡ 1 ∷ 1 ∷ 1 ∷ 0 ∷ []
unfolding start start_one broker_of lookup start_worker validate launch shutdown close
refused_mailer = refl
