-- ===== src/RateLimit/Window.antt =====
-- server/middleware/limiter_sliding.go: slidingWindowLimiter. The lock makes each method one step;
-- `now` is `time.Now().Unix()`. The two float64 comparisons are made exact: both sides are
-- multiplied by `expiration`, and the weight's subtraction is moved to the other side.
pub mod Fixed
pub mod Budget
pub mod History
use sdk_api.Base.{
  ◌/◌, ℕ, zero, suc, ◌+◌, ◌-◌, ◌*◌, ◌≤◌, ◌<◌, min, max, String, ◌≡◌, refl, sym, ap, ◌∙◌, ◌≢◌, ◌↔◌,
  ◌⊎◌, inl, inr, Bool, true, false, not, ◌&&◌, ◌||◌, Option, none, some, List, [], ◌∷◌, ◌++◌, map,
  arith, ltb, leb, nat_beq, nat_beq_iff, Eq, ◌==◌, ==_iff, nat_eq, string_eq, if◌then◌else◌,
  Bool-cases, Option-cases, is_some, length, get_elem?, set, take, length-append, length-set,
  get_elem?-append_last, get_elem?-append_left, get_elem?-set_ne, get_elem?-set_self, All, Map,
  lookup, insert, delete, lookup-insert, lookup-delete, contains, contains-cons_self,
  contains-cons_of_contains, contains-cons_cases,
}

pub record Window : Type 0 where
  pub prev_hits : ℕ
  pub curr_hits : ℕ
  pub window_exp : ℕ
  pub max : ℕ
  pub expiration : ℕ

-- `newSlidingWindowLimiter`; a burst that is not positive is 0 here.
unfoldable pub new_window : ℕ → ℕ → Window
new_window max burst = record {
  prev_hits = 0;
  curr_hits = 0;
  window_exp = 0;
  max = max;
  expiration = if burst == 0 then max else burst;
}

-- The rotation in `Allow`. Where it is read, `now` has reached `window_exp`.
unfoldable pub rotate : Window → ℕ → Window
rotate l now =
    if leb l.window_exp now
    then (if leb l.expiration (now + l.expiration - l.window_exp)
        then record l { prev_hits = 0; curr_hits = 0; window_exp = now + l.expiration }
        else record l {
          prev_hits = l.curr_hits;
          curr_hits = 0;
          window_exp = l.window_exp + l.expiration;
        })
    else l

-- `rate >= max`, for rate = prev * (1 - elapsed / expiration) + curr.
abbrev pub rate_reached : Window → ℕ → Bool
rate_reached l now =
    leb (l.max * l.expiration + l.prev_hits * (l.window_exp - now))
      ((l.prev_hits + l.curr_hits) * l.expiration)

-- `Allow` once the window is open and current.
unfoldable pub allow_rated : Window → ℕ → Window × Bool
allow_rated l now =
    if rate_reached l now then (l, false) else (record l { curr_hits = l.curr_hits + 1 }, true)

-- `Allow`.
unfoldable pub allow : Window → ℕ → Window × Bool
unfolding rotate allow_rated
allow l now =
    if l.window_exp == 0
    then (record l { window_exp = now + l.expiration; curr_hits = 1 }, true)
    else allow_rated (rotate l now) now

-- The smallest whole number of hits that is not below the rate.
abbrev ceil_rate : Window → ℕ → ℕ
ceil_rate l now =
    ((l.prev_hits + l.curr_hits) * l.expiration
      - l.prev_hits * (l.window_exp - now)
      + l.expiration
      - 1)
    / l.expiration

-- `Remaining`.
unfoldable pub remaining : Window → ℕ → ℕ
remaining l now =
    if l.window_exp == 0
    then l.max
    else if leb l.window_exp now
    then l.max
    else l.max - ceil_rate l now

-- `Cancel`.
unfoldable pub cancel : Window → Window
cancel l = if ltb 0 l.curr_hits then record l { curr_hits = l.curr_hits - 1 } else l
