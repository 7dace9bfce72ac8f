-- ===== src/Exit/Conserved.antt =====
-- runtime/exit.go: where the messages of a worker are.
use sdk_api.Base.{
  ℕ, zero, suc, ◌+◌, ◌≡◌, refl, ap, ◌∙◌, inl, inr, List, [], ◌∷◌, ◌++◌, arith, ◌==◌, nat_eq,
  string_eq, if◌then◌else◌, Bool-cases,
}
use sdk_api.Exit.{
  Settling, Slot, idle, returned, got, processing, Producer, handing, sending, Worker, repeat,
  max_concurrent, start_exit_worker, Step, polls, stops, fetches, fetch_fails, batch_done, refuses,
  offers, enqueues, gives_up, panics, takes, returns, drains, begins, finishes, shuts, closes,
  Reach, here, after,
}

-- How often a message is in a list.
abbrev pub occurs : ℕ → List ℕ → ℕ
occurs m [] = 0
occurs m (x ∷ xs) = (if x == m then 1 else 0) + occurs m xs

abbrev pub in_slots : ℕ → List Slot → ℕ
in_slots m [] = 0
in_slots m (got x ∷ slots) = (if x == m then 1 else 0) + in_slots m slots
in_slots m (processing x ∷ slots) = (if x == m then 1 else 0) + in_slots m slots
in_slots m (_ ∷ slots) = in_slots m slots

abbrev pub in_producer : ℕ → Producer → ℕ
in_producer m (handing ms) = occurs m ms
in_producer m (sending x ms) = (if x == m then 1 else 0) + occurs m ms
in_producer m _ = 0

-- How often a message is still with the worker.
abbrev pub on_hand : ℕ → Worker → ℕ
on_hand m w = in_producer m w.producer + occurs m w.queue + in_slots m w.slots

abbrev pub settlings : ℕ → List (ℕ × Settling) → ℕ
settlings m [] = 0
settlings m ((x, how) ∷ settled) = (if x == m then 1 else 0) + settlings m settled

pub occurs-append : (m : ℕ) (xs ys : List ℕ) → occurs m (xs ++ ys) ≡ occurs m xs + occurs m ys
occurs-append m [] ys = omega arith
occurs-append m (x ∷ xs) ys = omega (arith, occurs-append m xs ys)

pub in_slots-append :
    (m : ℕ) (xs ys : List Slot) → in_slots m (xs ++ ys) ≡ in_slots m xs + in_slots m ys
in_slots-append m [] ys = omega arith
in_slots-append m (got x ∷ xs) ys = omega (arith, in_slots-append m xs ys)
in_slots-append m (processing x ∷ xs) ys = omega (arith, in_slots-append m xs ys)
in_slots-append m (idle ∷ xs) ys = in_slots-append m xs ys
in_slots-append m (returned ∷ xs) ys = in_slots-append m xs ys

abbrev Conserves : ℕ → Worker → Type 0
Conserves m w = occurs m w.delivered ≡ on_hand m w + settlings m w.settled

-- The slots with `new` where `old` was, counted.
in_slots-replace :
    (m : ℕ) (slots before behind : List Slot) (old new : Slot)
    → slots ≡ before ++ old ∷ behind
    → in_slots m slots + in_slots m (new ∷ [])
      ≡ in_slots m (before ++ new ∷ behind) + in_slots m (old ∷ [])
in_slots-replace m slots before behind old new e =
    let whole = ap (in_slots m) e ∙ in_slots-append m before (old ∷ behind) in
    let changed = in_slots-append m before (new ∷ behind) in
    let olds = in_slots-append m (old ∷ []) behind in
    let news = in_slots-append m (new ∷ []) behind in omega (arith, whole, changed, olds, news)

module _ (outcome : ℕ → Settling) (m : ℕ) where
  step-Conserves : {w w' : Worker} → Step outcome w w' → Conserves m w → Conserves m w'
  step-Conserves (polls at up) h = omega (arith, h, ap (in_producer m) at)
  step-Conserves (stops at down) h = omega (arith, h, ap (in_producer m) at)
  step-Conserves {w} (fetches ms at few) h =
      omega (arith, h, ap (in_producer m) at, occurs-append m ms w.delivered)
  step-Conserves {w} (fetch_fails at) h = elim (Bool-cases w.shutdown) [
    | inl down ↦ rw down (omega (arith, h, ap (in_producer m) at))
    | inr up ↦ rw up (omega (arith, h, ap (in_producer m) at))
  ]
  step-Conserves (batch_done at) h = omega (arith, h, ap (in_producer m) at)
  step-Conserves (refuses at down) h = omega (arith, h, ap (in_producer m) at)
  step-Conserves (offers at up) h = omega (arith, h, ap (in_producer m) at)
  step-Conserves {w} (enqueues {m = x} at free room) h =
      omega (arith, h, ap (in_producer m) at, occurs-append m w.queue (x ∷ []))
  step-Conserves (gives_up at down) h = omega (arith, h, ap (in_producer m) at)
  step-Conserves (panics x ms at closed) h = h
  step-Conserves {w} (takes {m = x} before behind at first) h =
      omega
        (arith, h, ap (occurs m) first, in_slots-replace m w.slots before behind idle (got x) at)
  step-Conserves {w} (returns before behind at down) h =
      omega (arith, h, in_slots-replace m w.slots before behind idle returned at)
  step-Conserves {w} (drains {m = x} before behind at down) h =
      omega (arith, h, in_slots-replace m w.slots before behind (got x) idle at)
  step-Conserves {w} (begins x before behind at up) h =
      omega (arith, h, in_slots-replace m w.slots before behind (got x) (processing x) at)
  step-Conserves {w} (finishes {m = x} before behind at) h =
      omega (arith, h, in_slots-replace m w.slots before behind (processing x) idle at)
  step-Conserves (shuts up) h = h
  step-Conserves (closes down free) h = h

in_slots-repeat : (m n : ℕ) → in_slots m (repeat n idle) ≡ 0
in_slots-repeat m zero = refl
in_slots-repeat m (suc n) = in_slots-repeat m n

-- In every state that the goroutines of a worker can reach, each message has been settled or is
-- with the fetching goroutine, in the channel or with a goroutine of the worker, as often as it has
-- been fetched: none is lost or settled twice.
pub reach_conserves :
    (outcome : ℕ → Settling) (n pull_batch m : ℕ) {w : Worker}
    → Reach outcome (start_exit_worker n pull_batch) w
    → occurs m w.delivered ≡ on_hand m w + settlings m w.settled
unfolding start_exit_worker
reach_conserves outcome n pull_batch m here = omega (arith, in_slots-repeat m (max_concurrent n))
reach_conserves outcome n pull_batch m (after reach alive step) =
    step-Conserves outcome m step (reach_conserves outcome n pull_batch m reach)
