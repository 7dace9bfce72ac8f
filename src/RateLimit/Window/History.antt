-- ===== src/RateLimit/Window/History.antt =====
-- server/middleware/limiter_sliding.go: every history of calls, against the fixed window.
use sdk_api.Base.{
  ℕ, ◌-◌, ◌<◌, ◌≡◌, refl, ap, Bool, List, [], ◌∷◌, arith, ◌==◌, nat_eq, string_eq, if◌then◌else◌,
}
use sdk_api.RateLimit.Window.{Window, new_window, allow, cancel}
use sdk_api.RateLimit.Window.Fixed.{
  IsFixed, new_window-IsFixed, allow-IsFixed, FixedWindow, spec_allow, view, allow-spec_allow,
}

pub data Call : Type 0 where
  allow_at : ℕ → Call
  cancelled : Call

-- The answers of `Allow` in a history.
unfoldable pub answers : Window → List Call → List Bool
answers l [] = []
answers l (allow_at now ∷ calls) = (allow l now).1 ∷ answers (allow l now).0 calls
answers l (cancelled ∷ calls) = answers (cancel l) calls

abbrev pub spec_cancel : FixedWindow → FixedWindow
spec_cancel w = record w { hits = w.hits - 1 }

-- The answers that the specification gives.
unfoldable pub spec_answers : (limit period : ℕ) → FixedWindow → List Call → List Bool
spec_answers limit period w [] = []
spec_answers limit period w (allow_at now ∷ calls) =
    (spec_allow limit period w now).1
    ∷ spec_answers limit period (spec_allow limit period w now).0 calls
spec_answers limit period w (cancelled ∷ calls) = spec_answers limit period (spec_cancel w) calls

cancel-IsFixed : (l : Window) → IsFixed l → IsFixed (cancel l)
unfolding cancel
cancel-IsFixed l v = ground arith

view-cancel : (l : Window) → view (cancel l) ≡ spec_cancel (view l)
unfolding cancel
view-cancel l = ground arith

-- `max` and `expiration` are set once.
allow_keeps :
    (l : Window) (now : ℕ)
    → ((allow l now).0.max ≡ l.max) × ((allow l now).0.expiration ≡ l.expiration)
unfolding allow
allow_keeps l now = grind arith

cancel_keeps : (l : Window) → ((cancel l).max ≡ l.max) × ((cancel l).expiration ≡ l.expiration)
unfolding cancel
cancel_keeps l = ground arith

answers-spec_answers :
    (l : Window) (calls : List Call)
    → IsFixed l
    → answers l calls ≡ spec_answers l.max l.expiration (view l) calls
unfolding answers spec_answers cancel
answers-spec_answers l [] v = refl
answers-spec_answers l (allow_at now ∷ calls) v =
    let (moved, answered) = allow-spec_allow l now v in
    let rest = answers-spec_answers (allow l now).0 calls (allow-IsFixed l now v) in
    rw (answered, ← moved)
      (ap (λ (a : List Bool). (spec_allow l.max l.expiration (view l) now).1 ∷ a)
        (rw ((allow_keeps l now).0, (allow_keeps l now).1) at rest))
answers-spec_answers l (cancelled ∷ calls) v =
    let rest = answers-spec_answers (cancel l) calls (cancel-IsFixed l v) in
    rw (← view-cancel l) (rw ((cancel_keeps l).0, (cancel_keeps l).1) at rest)

-- A new limiter answers every history of `Allow` and `Cancel` calls as a fixed window does whose
-- period is the burst (the limit, where no burst is given), for a limit above 0.
pub new_window-answers :
    (max burst : ℕ) (calls : List Call)
    → 0 < max
    → answers (new_window max burst) calls
      ≡ spec_answers max
          (if burst == 0 then max else burst)
          (record { open_until = 0; hits = 0 })
          calls
unfolding new_window
new_window-answers max burst calls h =
    answers-spec_answers (new_window max burst) calls (new_window-IsFixed max burst h)
