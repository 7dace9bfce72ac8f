-- ===== src/Retry.antt =====
-- server/middleware/retry.go. What the i-th call of `c.Next()` comes to is a parameter, `next`: which
-- handlers it calls is up to the HTTP framework. A float64 is an exact number of nanoseconds, `grow` its
-- multiplication by the factor, and `random` what the generator gives.
pub mod Attempts
mod Tests
use sdk_api.Base.{
  ℕ, subst, zero, suc, ◌+◌, ◌-◌, ◌*◌, ◌≤◌, ◌<◌, ◌/◌, ◌%◌, ◌^◌, String, ◌≡◌, refl, sym, ap, ◌∙◌, ◌≢◌,
  ◌↔◌, ◌⊎◌, inl, inr, Bool, true, false, not, ◌&&◌, ◌||◌, Option, none, some, List, [], ◌∷◌, ◌++◌,
  map, arith, ltb, leb, nat_beq, nat_beq_iff, Eq, ◌==◌, ==_iff, nat_eq, string_eq, if◌then◌else◌,
  Bool-cases, Option-cases, is_some, length, get_elem?, set, take, length-append, length-set,
  get_elem?-append_last, get_elem?-append_left, get_elem?-set_ne, get_elem?-set_self, All, Map,
  lookup, insert, delete, lookup-insert, lookup-delete, contains, contains-cons_self,
  contains-cons_of_contains, contains-cons_cases, IsMap, retain, kept, insert-IsMap, delete-IsMap,
  lookup-retain, retain-IsMap,
}
use sdk_api.Base.Decimal.{ℤ, pos, negsuc}

-- RetryConfig, without the factor.
pub record RetryConfig : Type 0 where
  pub max_retries : ℤ
  pub initial_interval : ℕ
  pub max_backoff : ℕ

-- An error of `c.Next()`, and the one that is made of a status from 500.
pub data RetryError : Type 0 where
  next_error : String → RetryError
  retryable : (status : ℕ) → RetryError

-- What a call of `c.Next()` returns, and the status of the response then.
pub record Attempt : Type 0 where
  pub error : Option String
  pub status : ℕ

-- `lastErr` behind the two tests of the loop; `none` for nil.
abbrev pub judge : Attempt → Option RetryError
judge a = elim a.error [
  | some msg ↦ some (next_error msg)
  | none ↦ if ltb a.status 500 then none else some (retryable a.status)
]

abbrev pub millisecond : ℕ
millisecond = 1_000_000

-- `d` behind its loop.
abbrev pub grown : (ℕ → ℕ) → (attempt : ℕ) → ℕ → ℕ
grown grow zero d = d
grown grow (suc n) d = grown grow n (grow d)

-- `nextBackoffDuration`.
unfoldable pub next_backoff_duration :
    (grow : ℕ → ℕ) (random : Option ℕ) (attempt initial max : ℕ) → ℕ
next_backoff_duration grow random attempt initial max =
    let d = grown grow attempt initial in
    elim random [
      | none ↦ if leb max d then max else d
      | some n ↦ let late = d + n * millisecond in if leb max late then max else late
    ]

-- What the middleware returns, how often it has called `c.Next()`, and the waits.
pub record Run : Type 0 where
  pub error : Option RetryError
  pub calls : ℕ
  pub waits : List ℕ

-- How many rounds the loop has.
abbrev pub rounds_of : ℤ → ℕ
rounds_of (pos n) = suc n
rounds_of (negsuc n) = 0

-- `i < cfg.MaxRetries` where so many rounds are left.
abbrev pub waits_of : (rounds : ℕ) → ℕ → List ℕ → List ℕ
waits_of zero wait waits = waits
waits_of (suc rounds) wait waits = wait ∷ waits

-- The methods that may be repeated.
abbrev pub is_repeatable : String → Bool
is_repeatable method =
    method == "GET"
    || method == "HEAD"
    || method == "PUT"
    || method == "DELETE"
    || method == "OPTIONS"

module _ (grow : ℕ → ℕ) (random : ℕ → Option ℕ) (cfg : RetryConfig) (next : ℕ → Attempt) where
  -- The loop, with so many rounds left.
  unfoldable pub retry_from : (rounds i : ℕ) → Option RetryError → Run
  retry_from zero i last = record { error = last; calls = 0; waits = [] }
  retry_from (suc rounds) i last =
      let rest = retry_from rounds (suc i) (judge (next i)) in
      let wait = next_backoff_duration grow (random i) i cfg.initial_interval cfg.max_backoff in
      elim (judge (next i)) [
        | none ↦ record { error = none; calls = 1; waits = [] }
        | some e ↦ record {
          error = rest.error;
          calls = suc rest.calls;
          waits = waits_of rounds wait rest.waits;
        }
      ]

  -- `c.Next()` alone.
  abbrev pub next_only : Run
  next_only = record {
    error = elim (next 0).error [ none ↦ none | some msg ↦ some (next_error msg) ];
    calls = 1;
    waits = [];
  }

  -- `Retry`; `nested` where a retry above has set the attempt.
  unfoldable pub retry : (method : String) (nested : Bool) → Run
  retry method nested =
      if not (is_repeatable method) || nested
      then next_only
      else retry_from (rounds_of cfg.max_retries) 0 none
