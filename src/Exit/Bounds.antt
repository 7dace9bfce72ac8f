-- ===== src/Exit/Bounds.antt =====
-- runtime/exit.go: how many tasks are queued and in flight.
use sdk_api.Base.{
  ℕ, zero, suc, ◌*◌, ◌≤◌, ◌≡◌, refl, ap, ◌∙◌, true, List, [], ◌∷◌, ◌++◌, arith, nat_eq, string_eq,
  length, length-append,
}
use sdk_api.Exit.{
  Settling, Slot, idle, returned, got, processing, Worker, repeat, max_concurrent,
  start_exit_worker, in_flight, Step, polls, stops, fetches, fetch_fails, batch_done, refuses,
  offers, enqueues, gives_up, panics, takes, returns, drains, begins, finishes, shuts, closes,
  Reach, here, after,
}

-- The channel holds what it can, there are as many goroutines as were started, and the channel is
-- closed only in a shutdown.
abbrev pub Kept : ℕ → Worker → Type 0
Kept n w =
    (w.capacity ≡ n * 2)
    × (length w.queue ≤ w.capacity)
    × (length w.slots ≡ n)
    × (w.tasks_closed ≡ true → w.shutdown ≡ true)

length-replace {ℓ} :
    {A : Type ℓ} (xs before behind : List A) (old new : A)
    → xs ≡ before ++ old ∷ behind
    → length (before ++ new ∷ behind) ≡ length xs
length-replace xs before behind old new e =
    let whole = ap length e ∙ length-append before (old ∷ behind) in
    omega (arith, whole, length-append before (new ∷ behind))

module _ (outcome : ℕ → Settling) (n : ℕ) where
  step-Kept : {w w' : Worker} → Step outcome w w' → Kept n w → Kept n w'
  step-Kept (polls at up) h = h
  step-Kept (stops at down) h = h
  step-Kept (fetches ms at few) h = h
  step-Kept (fetch_fails at) h = h
  step-Kept (batch_done at) h = h
  step-Kept (refuses at down) h = h
  step-Kept (offers at up) h = h
  step-Kept {w} (enqueues {m = x} at free room) (cap, few, slots, down) =
      (cap, omega (arith, few, room, length-append w.queue (x ∷ [])), slots, down)
  step-Kept (gives_up at down) h = h
  step-Kept (panics x ms at closed) h = h
  step-Kept {w} (takes before behind at first) (cap, few, slots, down) = (
    cap,
    omega (arith, few, ap length first),
    length-replace w.slots before behind idle _ at ∙ slots,
    down,
  )
  step-Kept {w} (returns before behind at down) (cap, few, slots, closed) =
      (cap, few, length-replace w.slots before behind idle _ at ∙ slots, closed)
  step-Kept {w} (drains before behind at down) (cap, few, slots, closed) =
      (cap, few, length-replace w.slots before behind _ idle at ∙ slots, closed)
  step-Kept {w} (begins x before behind at up) (cap, few, slots, closed) =
      (cap, few, length-replace w.slots before behind _ _ at ∙ slots, closed)
  step-Kept {w} (finishes before behind at) (cap, few, slots, closed) =
      (cap, few, length-replace w.slots before behind _ idle at ∙ slots, closed)
  step-Kept (shuts up) (cap, few, slots, closed) = (cap, few, slots, λ _. refl)
  step-Kept (closes down free) (cap, few, slots, closed) = (cap, few, slots, λ _. down)

length-repeat : (n : ℕ) (s : Slot) → length (repeat n s) ≡ n
length-repeat zero s = refl
length-repeat (suc n) s = ap suc (length-repeat n s)

pub reach-Kept :
    (outcome : ℕ → Settling) (n pull_batch : ℕ) {w : Worker}
    → Reach outcome (start_exit_worker n pull_batch) w
    → Kept (max_concurrent n) w
unfolding start_exit_worker
reach-Kept outcome n pull_batch here =
    (refl, omega arith, length-repeat (max_concurrent n) idle, λ e. absurd (cc))
reach-Kept outcome n pull_batch (after reach alive step) =
    step-Kept outcome (max_concurrent n) step (reach-Kept outcome n pull_batch reach)

in_flight_le : (slots : List Slot) → in_flight slots ≤ length slots
in_flight_le [] = omega arith
in_flight_le (processing m ∷ slots) = omega (arith, in_flight_le slots)
in_flight_le (got m ∷ slots) = omega (arith, in_flight_le slots)
in_flight_le (idle ∷ slots) = omega (arith, in_flight_le slots)
in_flight_le (returned ∷ slots) = omega (arith, in_flight_le slots)

-- In every state that the goroutines of a worker can reach, at most MaxConcurrent tasks are in
-- flight, and at most twice as many are in the channel.
pub reach_bounds :
    (outcome : ℕ → Settling) (n pull_batch : ℕ) {w : Worker}
    → Reach outcome (start_exit_worker n pull_batch) w
    → (in_flight w.slots ≤ max_concurrent n) × (length w.queue ≤ max_concurrent n * 2)
reach_bounds outcome n pull_batch {w} reach =
    let (cap, few, slots, _) = reach-Kept outcome n pull_batch reach in
    (omega (arith, in_flight_le w.slots, slots), omega (arith, few, cap))
