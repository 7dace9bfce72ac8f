-- ===== src/Exit/Draining.antt =====
-- runtime/exit.go: a worker that has been told to shut down comes to an end.
use sdk_api.Base.{
  ℕ, suc, ◌+◌, ◌*◌, ◌≤◌, ◌<◌, ◌≡◌, refl, ap, ◌∙◌, ◌≢◌, ◌⊎◌, inl, inr, true, false, List, [], ◌∷◌,
  ◌++◌, arith, nat_eq, string_eq, if◌then◌else◌, Bool-cases, length, length-append, All,
}
use sdk_api.Exit.{
  Settling, Slot, idle, returned, got, processing, Producer, looping, fetching, stopped, handing,
  sending, Worker, Step, polls, stops, fetches, fetch_fails, batch_done, refuses, offers, enqueues,
  gives_up, panics, takes, returns, drains, begins, finishes, shuts, closes,
}

-- How many steps the goroutine that fetches can still cause.
abbrev producer_work : (batch : ℕ) → Producer → ℕ
producer_work batch looping = 1
producer_work batch stopped = 0
producer_work batch fetching = 3 * batch + 3
producer_work batch (handing ms) = 3 * length ms + 2
producer_work batch (sending m ms) = 3 * length ms + 6

abbrev slot_work : List Slot → ℕ
slot_work [] = 0
slot_work (idle ∷ slots) = 1 + slot_work slots
slot_work (got m ∷ slots) = 3 + slot_work slots
slot_work (processing m ∷ slots) = 2 + slot_work slots
slot_work (returned ∷ slots) = slot_work slots

abbrev pub work : Worker → ℕ
work w =
    producer_work w.batch w.producer
    + 3 * length w.queue
    + slot_work w.slots
    + (if w.tasks_closed then 0 else 1)
    + (if w.panicked then 0 else 1)

-- A run of so many steps; none follows a panic.
pub data Run (outcome : ℕ → Settling) : ℕ → Worker → Worker → Type 0 where
  done : {w : Worker} → Run outcome 0 w w
  next :
      {n : ℕ} {w w' w'' : Worker}
      → w.panicked ≡ false
      → Step outcome w w'
      → Run outcome n w' w''
      → Run outcome (suc n) w w''

slot_work-append : (xs ys : List Slot) → slot_work (xs ++ ys) ≡ slot_work xs + slot_work ys
slot_work-append [] ys = omega arith
slot_work-append (idle ∷ xs) ys = omega (arith, slot_work-append xs ys)
slot_work-append (returned ∷ xs) ys = slot_work-append xs ys
slot_work-append (got m ∷ xs) ys = omega (arith, slot_work-append xs ys)
slot_work-append (processing m ∷ xs) ys = omega (arith, slot_work-append xs ys)

slot_work-replace :
    (slots before behind : List Slot) (old new : Slot)
    → slots ≡ before ++ old ∷ behind
    → slot_work slots + slot_work (new ∷ [])
      ≡ slot_work (before ++ new ∷ behind) + slot_work (old ∷ [])
slot_work-replace slots before behind old new e =
    let whole = ap slot_work e ∙ slot_work-append before (old ∷ behind) in
    let changed = slot_work-append before (new ∷ behind) in
    let olds = slot_work-append (old ∷ []) behind in
    let news = slot_work-append (new ∷ []) behind in omega (arith, whole, changed, olds, news)

module _ (outcome : ℕ → Settling) where
  step-shutdown : {w w' : Worker} → Step outcome w w' → w.shutdown ≡ true → w'.shutdown ≡ true
  step-shutdown (shuts up) down = refl
  step-shutdown _ down = down

  -- Each step of a shutdown leaves less to do.
  step-work :
      {w w' : Worker}
      → w.shutdown ≡ true
      → w.panicked ≡ false
      → Step outcome w w'
      → work w' < work w
  step-work down alive (polls at up) = absurd (cc)
  step-work {w} down alive (stops at _) = omega (arith, ap (producer_work w.batch) at)
  step-work {w} down alive (fetches ms at few) = omega (arith, ap (producer_work w.batch) at)
  step-work {w} down alive (fetch_fails at) = rw down (omega (arith, ap (producer_work w.batch) at))
  step-work {w} down alive (batch_done at) = omega (arith, ap (producer_work w.batch) at)
  step-work {w} down alive (refuses at _) = omega (arith, ap (producer_work w.batch) at)
  step-work down alive (offers at up) = absurd (cc)
  step-work {w} down alive (enqueues {m = x} at free room) =
      omega (arith, ap (producer_work w.batch) at, length-append w.queue (x ∷ []))
  step-work {w} down alive (gives_up at _) = omega (arith, ap (producer_work w.batch) at)
  step-work down alive (panics x ms at closed) = rw alive (omega arith)
  step-work {w} down alive (takes {m = x} before behind at first) =
      omega (arith, ap length first, slot_work-replace w.slots before behind idle (got x) at)
  step-work {w} down alive (returns before behind at _) =
      omega (arith, slot_work-replace w.slots before behind idle returned at)
  step-work {w} down alive (drains {m = x} before behind at _) =
      omega (arith, slot_work-replace w.slots before behind (got x) idle at)
  step-work down alive (begins x before behind at up) = absurd (cc)
  step-work {w} down alive (finishes {m = x} before behind at) =
      omega (arith, slot_work-replace w.slots before behind (processing x) idle at)
  step-work down alive (shuts up) = absurd (cc)
  step-work down alive (closes _ free) = rw free (omega arith)

  pub run-work :
      {n : ℕ} {w w' : Worker} → w.shutdown ≡ true → Run outcome n w w' → n + work w' ≤ work w
  run-work down done = omega arith
  run-work down (next alive step rest) =
      omega (arith, step-work down alive step, run-work (step-shutdown step down) rest)

  run-shutdown :
      {n : ℕ} {w w' : Worker} → w.shutdown ≡ true → Run outcome n w w' → w'.shutdown ≡ true
  run-shutdown down done = down
  run-shutdown down (next alive step rest) = run-shutdown (step-shutdown step down) rest

-- All goroutines have returned, and the channel is closed.
abbrev pub Final : Worker → Type 0
Final w = (w.producer ≡ stopped) × All (λ s. s ≡ returned) w.slots × (w.tasks_closed ≡ true)

-- Some goroutine has not returned, or all have.
abbrev Busy : List Slot → Type 0
Busy slots =
    (before : List Slot) × (s : Slot) × (behind : List Slot) × (slots ≡ before ++ s ∷ behind)
    × (s ≢ returned)

Busy-cons : (s : Slot) (slots : List Slot) → Busy slots → Busy (s ∷ slots)
Busy-cons s slots (before, t, behind, e, other) = (s ∷ before, t, behind, ap (◌∷◌ s) e, other)

Busy-cases : (slots : List Slot) → Busy slots ⊎ All (λ s. s ≡ returned) slots
Busy-cases [] = inr tt
Busy-cases (returned ∷ slots) = elim (Busy-cases slots) [
  | inl busy ↦ inl (Busy-cons returned slots busy)
  | inr all ↦ inr (refl, all)
]
Busy-cases (idle ∷ slots) = inl ([], idle, slots, refl, λ e. cc)
Busy-cases (got m ∷ slots) = inl ([], got m, slots, refl, λ e. cc)
Busy-cases (processing m ∷ slots) = inl ([], processing m, slots, refl, λ e. cc)

module _ (outcome : ℕ → Settling) where
  abbrev pub CanStep : Worker → Type 0
  CanStep w = (w' : Worker) × Step outcome w w'

  producer-CanStep :
      (p : Producer) (w : Worker)
      → w.producer ≡ p
      → w.shutdown ≡ true
      → CanStep w ⊎ (w.producer ≡ stopped)
  producer-CanStep looping w at down = inl (_, stops at down)
  producer-CanStep fetching w at down = inl (_, fetch_fails at)
  producer-CanStep stopped w at down = inr at
  producer-CanStep (handing []) w at down = inl (_, batch_done at)
  producer-CanStep (handing (m ∷ ms)) w at down = inl (_, refuses at down)
  producer-CanStep (sending m ms) w at down = inl (_, gives_up at down)

  slot-CanStep :
      (s : Slot) (w : Worker) (before behind : List Slot)
      → w.slots ≡ before ++ s ∷ behind
      → s ≢ returned
      → w.shutdown ≡ true
      → CanStep w
  slot-CanStep idle w before behind at other down = (_, returns before behind at down)
  slot-CanStep returned w before behind at other down = absurd (other refl)
  slot-CanStep (got m) w before behind at other down = (_, drains before behind at down)
  slot-CanStep (processing m) w before behind at other down = (_, finishes before behind at)

  pub shutdown_progress : (w : Worker) → w.shutdown ≡ true → CanStep w ⊎ Final w
  shutdown_progress w down = elim (producer-CanStep w.producer w refl down) [
    | inl can ↦ inl can
    | inr at ↦ elim (Busy-cases w.slots) [
      | inl (before, s, behind, e, other) ↦ inl (slot-CanStep s w before behind e other down)
      | inr all ↦ elim (Bool-cases w.tasks_closed) [
        | inl closed ↦ inr (at, all, closed)
        | inr free ↦ inl (_, closes down free)
      ]
    ]
  ]

  -- From any state after the shutdown, a run of the goroutines takes at most `work` steps, whatever
  -- their order, and where it has not panicked and no step is left, every goroutine has returned
  -- and the channel is closed.
  pub shutdown_ends :
      {n : ℕ} {w w' : Worker}
      → w.shutdown ≡ true
      → Run outcome n w w'
      → (n + work w' ≤ work w) × ((w'.panicked ≡ true) ⊎ (CanStep w' ⊎ Final w'))
  shutdown_ends {w' = w'} down run =
      (run-work outcome down run, inr (shutdown_progress w' (run-shutdown outcome down run)))
