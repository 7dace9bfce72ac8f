-- ===== src/Exit/Outcomes.antt =====
-- runtime/exit.go: two ways in which a shutdown can go.
use mathlib.Core.List.{append-nil}
use sdk_api.Base.{
  ℕ, subst, zero, suc, ◌*◌, ◌≤◌, ◌<◌, ◌≡◌, refl, ap, ◌∙◌, true, false, List, [], ◌∷◌, ◌++◌, arith,
  leb, nat_eq, string_eq, if◌then◌else◌, length, All,
}
use sdk_api.Exit.Conserved.{occurs, settlings}
use sdk_api.Exit.Draining.{Final}
use sdk_api.Exit.{
  Settling, Slot, idle, returned, sending, Worker, repeat, max_concurrent, start_exit_worker, polls,
  stops, fetches, batch_done, offers, enqueues, panics, returns, shuts, closes, Reach, here, after,
}

module _ (outcome : ℕ → Settling) (n pull_batch m : ℕ) where
  abbrev pub Reached : Worker → Type 0
  Reached = Reach outcome (start_exit_worker n pull_batch)

  -- Fetch has answered with one message, which enqueueMsg holds between its selects.
  abbrev Offered : Worker → Type 0
  Offered w =
      (w.producer ≡ sending m [])
      × (w.queue ≡ [])
      × (w.slots ≡ repeat (max_concurrent n) idle)
      × (w.shutdown ≡ false)
      × (w.tasks_closed ≡ false)
      × (w.panicked ≡ false)
      × (w.capacity ≡ max_concurrent n * 2)
      × (w.settled ≡ [])

  batch_pos : 1 ≤ (if leb pull_batch 0 then 10 else pull_batch)
  batch_pos = ground arith

  offered : (w : Worker) × Reached w × Offered w
  unfolding start_exit_worker
  offered = (
    _,
    after (after (after here refl (polls refl refl)) refl (fetches (m ∷ []) refl batch_pos)) refl
        (offers refl refl),
    (refl, refl, refl, refl, refl, refl, refl, refl),
  )

  -- However many goroutines a worker has, it can panic in its shutdown: enqueueMsg is between its
  -- selects when the channel of tasks is closed, and sends on it.
  pub shutdown_panics : (w : Worker) × Reached w × (w.panicked ≡ true)
  shutdown_panics =
      let (w, reach, o) = offered in
      (
        _,
        after (after (after reach o.5 (shuts o.3)) o.5 (closes refl o.4)) o.5
            (panics m [] o.0 refl),
        refl,
      )

  repeat-shift :
      (k : ℕ) (s : Slot) (slots : List Slot) → repeat k s ++ s ∷ slots ≡ s ∷ (repeat k s ++ slots)
  repeat-shift zero s slots = refl
  repeat-shift (suc k) s slots = ap (◌∷◌ s) (repeat-shift k s slots)

  -- The idle goroutines return one after the other, whatever is in the channel.
  all_return :
      (i k : ℕ) (w : Worker)
      → Reached w
      → w.panicked ≡ false
      → w.shutdown ≡ true
      → w.slots ≡ repeat k returned ++ repeat i idle
      → Reached (record w { slots = repeat i returned ++ repeat k returned })
  all_return zero k w reach alive down at =
      subst (λ slots. Reached (record w { slots = slots })) (at ∙ append-nil (repeat k returned))
        reach
  all_return (suc i) k w reach alive down at =
      let step = returns (repeat k returned) (repeat i idle) at down in
      let rest =
        all_return i (suc k) (record w { slots = repeat k returned ++ returned ∷ repeat i idle })
          (after reach alive step) alive down (repeat-shift k returned (repeat i idle)) in
      subst (λ slots. Reached (record w { slots = slots }))
        (repeat-shift i returned (repeat k returned)) rest

  repeat-All : (i : ℕ) → All (λ s. s ≡ returned) (repeat i returned ++ [])
  repeat-All zero = tt
  repeat-All (suc i) = (refl, repeat-All i)

  -- However many goroutines a worker has, its shutdown can end with every goroutine returned and a
  -- message in the channel that has not been settled.
  pub shutdown_leaves :
      (w : Worker) × Reached w × Final w × (occurs m w.queue ≡ 1) × (settlings m w.settled ≡ 0)
  shutdown_leaves =
      let (w, reach, o) = offered in
      let same : occurs m (m ∷ []) ≡ 1 = ground arith in
      let room_for_one : 1 ≤ max_concurrent n * 2 = ground arith in
      let room : length w.queue < w.capacity = rw (o.1, o.6) room_for_one in
      let queued = after reach o.5 (enqueues o.0 o.4 room) in
      let told = after queued o.5 (shuts o.3) in
      let back = after (after told o.5 (batch_done refl)) o.5 (stops refl refl) in
      let closed = after back o.5 (closes refl o.4) in
      let gone = all_return (max_concurrent n) 0 _ closed o.5 refl o.2 in
      (
        _,
        gone,
        (refl, repeat-All (max_concurrent n), refl),
        ap (λ q. occurs m (q ++ m ∷ [])) o.1 ∙ same,
        ap (settlings m) o.7,
      )
