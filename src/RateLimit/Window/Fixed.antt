-- ===== src/RateLimit/Window/Fixed.antt =====
-- server/middleware/limiter_sliding.go: the limiter is a fixed window. A rotation always finds the
-- window fully expired, so `prevHits` is never anything but 0.
use sdk_api.Base.{
  ℕ, ◌+◌, ◌*◌, ◌≤◌, ◌<◌, max, ◌≡◌, refl, inl, inr, Bool, true, false, arith, ltb, leb, ◌==◌, nat_eq,
  string_eq, if◌then◌else◌, Bool-cases,
}
use sdk_api.RateLimit.Window.{Window, new_window, rotate, rate_reached, allow_rated, allow}

-- The limiter after any history: `prev_hits` is 0 and the hits of the window are within the limit.
pub record IsFixed (l : Window) : Type 0 where
  pub no_prev : l.prev_hits ≡ 0
  pub within : l.curr_hits ≤ l.max
  pub some_max : 0 < l.max
  pub some_length : 0 < l.expiration

pub new_window-IsFixed : (max burst : ℕ) → 0 < max → IsFixed (new_window max burst)
unfolding new_window
new_window-IsFixed max burst h = ground arith

rotate-IsFixed : (l : Window) (now : ℕ) → IsFixed l → IsFixed (rotate l now)
unfolding rotate
rotate-IsFixed l now v = ground arith

allow_rated-IsFixed : (l : Window) (now : ℕ) → IsFixed l → IsFixed (allow_rated l now).0
unfolding allow_rated
allow_rated-IsFixed l now v = grind arith

pub allow-IsFixed : (l : Window) (now : ℕ) → IsFixed l → IsFixed (allow l now).0
unfolding allow
allow-IsFixed l now v = grind arith

-- The specification: a window that is open until a time and counts the hits in it.
pub record FixedWindow : Type 0 where
  pub open_until : ℕ
  pub hits : ℕ

-- A request in the window is let through up to the limit; one after it opens the next window.
abbrev pub spec_allow : (limit period : ℕ) → FixedWindow → ℕ → FixedWindow × Bool
spec_allow limit period w now =
    if ltb now w.open_until
    then (if ltb w.hits limit then (record w { hits = w.hits + 1 }, true) else (w, false))
    else (record { open_until = now + period; hits = 1 }, true)

abbrev pub view : Window → FixedWindow
view l = record { open_until = l.window_exp; hits = l.curr_hits }

le_of_mul_le : (a b k : ℕ) → 0 < k → a * k ≤ b * k → a ≤ b
le_of_mul_le a b k h e = grind arith

mul_le_of_le : (a b k : ℕ) → a ≤ b → a * k ≤ b * k
mul_le_of_le a b k h = grind arith

-- With no previous hits the weighted rate is the number of hits in the window.
rate_of_no_prev :
    (l : Window) (now : ℕ)
    → l.prev_hits ≡ 0
    → 0 < l.expiration
    → rate_reached l now ≡ leb l.max l.curr_hits
rate_of_no_prev l now e h = rw e (
    ground (
      arith,
      le_of_mul_le l.max l.curr_hits l.expiration h,
      mul_le_of_le l.max l.curr_hits l.expiration,
    ))

-- The branch that moves `currHits` to `prevHits` is not reached.
pub rotate_of_expired :
    (l : Window) (now : ℕ)
    → l.window_exp ≤ now
    → rotate l now ≡ record l { prev_hits = 0; curr_hits = 0; window_exp = now + l.expiration }
unfolding rotate
rotate_of_expired l now h = ground arith

rotate_of_open : (l : Window) (now : ℕ) → now < l.window_exp → rotate l now ≡ l
unfolding rotate
rotate_of_open l now h = ground arith

allow_of_used :
    (l : Window) (now : ℕ) → 0 < l.window_exp → allow l now ≡ allow_rated (rotate l now) now
unfolding allow
allow_of_used l now h = let used : (l.window_exp == 0) ≡ false = ground arith in rw used

allow_of_unused :
    (l : Window) (now : ℕ)
    → l.window_exp ≡ 0
    → allow l now ≡ (record l { curr_hits = 1; window_exp = now + l.expiration }, true)
unfolding allow
allow_of_unused l now h = let fresh : (l.window_exp == 0) ≡ true = ground arith in rw fresh

module _ (l : Window) (now : ℕ) (e : l.prev_hits ≡ 0) (h : 0 < l.expiration) where
  allow_rated_of_room :
      l.curr_hits < l.max → allow_rated l now ≡ (record l { curr_hits = l.curr_hits + 1 }, true)
  unfolding allow_rated
  allow_rated_of_room room =
      let below : rate_reached l now ≡ false = ground (arith, rate_of_no_prev l now e h) in rw below

  allow_rated_of_full : l.max ≤ l.curr_hits → allow_rated l now ≡ (l, false)
  unfolding allow_rated
  allow_rated_of_full full =
      let reached : rate_reached l now ≡ true = ground (arith, rate_of_no_prev l now e h) in
      rw reached

module _ (l : Window) (now : ℕ) (v : IsFixed l) where
  pub allow_of_expired :
      l.window_exp ≤ now
      → allow l now ≡ (record l { curr_hits = 1; window_exp = now + l.expiration }, true)
  allow_of_expired h = elim (Bool-cases (l.window_exp == 0)) [
    | inl fresh ↦ allow_of_unused l now (ground arith)
    | inr used ↦
        rw (allow_of_used l now (ground arith), rotate_of_expired l now h)
          (rw
            (allow_rated_of_room
              (record l { prev_hits = 0; curr_hits = 0; window_exp = now + l.expiration }) now refl
              v.some_length v.some_max)
            (ground arith))
  ]

  pub allow_of_room :
      now < l.window_exp
      → l.curr_hits < l.max
      → allow l now ≡ (record l { curr_hits = l.curr_hits + 1 }, true)
  allow_of_room h room =
      rw (allow_of_used l now (omega arith), rotate_of_open l now h)
        (allow_rated_of_room l now v.no_prev v.some_length room)

  pub allow_of_full : now < l.window_exp → l.max ≤ l.curr_hits → allow l now ≡ (l, false)
  allow_of_full h full =
      rw (allow_of_used l now (omega arith), rotate_of_open l now h)
        (allow_rated_of_full l now v.no_prev v.some_length full)

  -- On every limiter that a history can reach, `Allow` answers and moves as the fixed window does.
  pub allow-spec_allow :
      (view (allow l now).0 ≡ (spec_allow l.max l.expiration (view l) now).0)
      × ((allow l now).1 ≡ (spec_allow l.max l.expiration (view l) now).1)
  allow-spec_allow = ground (arith, allow_of_expired, allow_of_room, allow_of_full)
