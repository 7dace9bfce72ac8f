-- ===== src/RateLimit/Window/Budget.antt =====
-- server/middleware/limiter_sliding.go: how many requests a limiter lets through, what it reports
-- as remaining, and what a cancelled request gives back.
use sdk_api.Base.{
  ℕ, zero, suc, ◌+◌, ◌-◌, ◌*◌, ◌≤◌, ◌<◌, ◌/◌, ◌≡◌, Bool, true, false, List, [], ◌∷◌, ◌++◌, arith,
  ltb, nat_eq, string_eq, All,
}
use native.Mathlib.Nat.{div-eq_of_lt-le}
use native.Mathlib.Decide.{dec_lt}
use sdk_api.RateLimit.Window.{Window, allow, remaining, cancel}
use sdk_api.RateLimit.Window.Fixed.{IsFixed, allow_of_expired, allow_of_room, allow_of_full}

abbrev count_if : Bool → ℕ → ℕ
count_if true n = suc n
count_if false n = n

-- The requests let through among calls of `Allow` at the given times.
unfoldable pub grants : Window → List ℕ → ℕ
grants l [] = 0
grants l (t ∷ ts) = count_if (allow l t).1 (grants (allow l t).0 ts)

-- The limiter after those calls.
unfoldable pub after : Window → List ℕ → Window
after l [] = l
after l (t ∷ ts) = after (allow l t).0 ts

abbrev pub replicate : ℕ → ℕ → List ℕ
replicate zero t = []
replicate (suc n) t = t ∷ replicate n t

-- While one window of a limiter that a history can reach lasts, what it has let through and what it
-- will let through stay within `max`.
pub grants_within :
    (l : Window) (ts : List ℕ)
    → IsFixed l
    → All (λ t. t < l.window_exp) ts
    → l.curr_hits + grants l ts ≤ l.max
unfolding grants
grants_within l [] v h = omega (arith, v.within)
grants_within l (t ∷ ts) v (now, later) = elim (dec_lt l.curr_hits l.max) [
  | yes room ↦ rw (allow_of_room l t v now room) (
      omega
        (arith, grants_within (record l { curr_hits = l.curr_hits + 1 }) ts (ground arith) later))
  | no full ↦ rw (allow_of_full l t v now (omega arith)) (grants_within l ts v later)
]

-- A window with room for `n` more requests lets `n` through.
grants_fill :
    (n : ℕ) (l : Window) (t : ℕ) (ts : List ℕ)
    → IsFixed l
    → t < l.window_exp
    → l.curr_hits + n ≤ l.max
    → grants l (replicate n t ++ ts) ≡ n + grants (record l { curr_hits = l.curr_hits + n }) ts
unfolding grants
grants_fill zero l t ts v now room = ground arith
grants_fill (suc n) l t ts v now room = rw (allow_of_room l t v now (omega arith)) (
    ground
      (arith, grants_fill n (record l { curr_hits = l.curr_hits + 1 }) t ts (ground arith) now))

-- A call that opens a window, and `k` more at a time in it.
grants_open :
    (k : ℕ) (l : Window) (t u : ℕ) (ts : List ℕ)
    → IsFixed l
    → l.window_exp ≤ t
    → u < t + l.expiration
    → suc k ≤ l.max
    → grants l (t ∷ (replicate k u ++ ts))
      ≡ suc k + grants (record l { curr_hits = suc k; window_exp = t + l.expiration }) ts
unfolding grants
grants_open k l t u ts v old now room = rw (allow_of_expired l t v old) (
    ground (
      arith,
      grants_fill k (record l { curr_hits = 1; window_exp = t + l.expiration }) u ts (ground arith)
          now (omega arith),
    ))

-- A limiter of `max` requests that a history can reach, whose window has ended, lets `2 * max`
-- through within one second: `max` until the last second of a window, and `max` in the first second
-- of the next.
pub grants_boundary :
    (k : ℕ) (l : Window) (t : ℕ)
    → IsFixed l
    → l.max ≡ suc k
    → l.window_exp ≤ t
    → let next = t + l.expiration in
      grants l (t ∷ (replicate k (next - 1) ++ next ∷ (replicate k next ++ []))) ≡ 2 * l.max
grants_boundary k l t v size old =
    let full = record l { curr_hits = suc k; window_exp = t + l.expiration } in
    rw
      (grants_open k l t (t + l.expiration - 1) _ v old (omega (arith, v.some_length))
        (omega (arith, size)))
      (rw
        (grants_open k full (t + l.expiration) (t + l.expiration) [] (ground arith) (omega arith)
          (omega (arith, v.some_length)) (omega (arith, size)))
        (unfold grants in (omega (arith, size))))

ceil_exact : (c e : ℕ) → 0 < e → (c * e + e - 1) / e ≡ c
ceil_exact c e h = div-eq_of_lt-le e (omega arith) (omega arith)

pub remaining_of_open :
    (l : Window) (now : ℕ) → IsFixed l → now < l.window_exp → remaining l now ≡ l.max - l.curr_hits
unfolding remaining
remaining_of_open l now v h =
    rw v.no_prev (ground (arith, ceil_exact l.curr_hits l.expiration v.some_length))

remaining_of_expired : (l : Window) (now : ℕ) → l.window_exp ≤ now → remaining l now ≡ l.max
unfolding remaining
remaining_of_expired l now h = ground arith

-- On every limiter that a history can reach, `Allow` lets a request through exactly when
-- `Remaining` is not 0.
pub allow-remaining : (l : Window) (now : ℕ) → IsFixed l → (allow l now).1 ≡ ltb 0 (remaining l now)
allow-remaining l now v = ground (
  arith,
  remaining_of_open l now v,
  remaining_of_expired l now,
  allow_of_expired l now v,
  allow_of_room l now v,
  allow_of_full l now v,
)

-- A request that was let through in an open window and is then cancelled leaves the limiter as it was.
pub cancel-allow :
    (l : Window) (now : ℕ)
    → IsFixed l
    → now < l.window_exp
    → l.curr_hits < l.max
    → cancel (allow l now).0 ≡ l
unfolding cancel
cancel-allow l now v h room = rw (allow_of_room l now v h room) (ground arith)
