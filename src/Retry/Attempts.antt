-- ===== src/Retry/Attempts.antt =====
-- server/middleware/retry.go: how often `c.Next()` is called.
use sdk_api.Base.{
  ℕ, subst, zero, suc, ◌+◌, ◌≤◌, ◌<◌, String, ◌≡◌, refl, sym, ap, ◌∙◌, ◌≢◌, ◌⊎◌, inl, inr, true,
  false, Option, none, some, [], arith, nat_eq, string_eq, Option-cases, length, All,
}
use sdk_api.Base.Decimal.{pos}
use sdk_api.Retry.{
  RetryConfig, RetryError, Attempt, judge, next_backoff_duration, Run, waits_of, is_repeatable,
  retry_from, retry,
}

next_backoff_duration_bounds :
    (grow : ℕ → ℕ) (random : Option ℕ) (attempt initial max : ℕ)
    → next_backoff_duration grow random attempt initial max ≤ max
unfolding next_backoff_duration
next_backoff_duration_bounds grow none attempt initial max = ground arith
next_backoff_duration_bounds grow (some n) attempt initial max = ground arith

some_not_none : (e : RetryError) → some e ≢ none
some_not_none e h = cc

module _ (grow : ℕ → ℕ) (random : ℕ → Option ℕ) (cfg : RetryConfig) (next : ℕ → Attempt) where
  -- So many attempts from the i-th one fail.
  abbrev pub Fails : (count i : ℕ) → Type 0
  Fails zero i = Unit
  Fails (suc count) i = (judge (next i) ≢ none) × Fails count (suc i)

  -- The run fails k times from the i-th attempt and then ends, either with an attempt that succeeds or
  -- because the rounds are used up, with the error of the last attempt.
  abbrev pub Ends : (rounds i : ℕ) → Run → Type 0
  Ends rounds i r =
      (k : ℕ) × (k < rounds)
      × Fails k i
      × (r.error ≡ judge (next (i + k)))
      × ((r.error ≡ none) ⊎ (suc k ≡ rounds))
      × (r.calls ≡ suc k)
      × (length r.waits ≡ k)
      × All (λ w. w ≤ cfg.max_backoff) r.waits

  retry_from_last :
      (rounds i : ℕ) (last : Option RetryError)
      → judge (next i) ≡ none
      → retry_from grow random cfg next (suc rounds) i last
        ≡ record { error = none; calls = 1; waits = [] }
  unfolding retry_from
  retry_from_last rounds i last e = rw (retry_from, e) refl

  -- What a failed attempt puts before the later ones.
  abbrev behind : (rounds i : ℕ) → Run → Run
  behind rounds i rest = record {
    error = rest.error;
    calls = suc rest.calls;
    waits =
        waits_of rounds
          (next_backoff_duration grow (random i) i cfg.initial_interval cfg.max_backoff) rest.waits;
  }

  retry_from_failed :
      (rounds i : ℕ) (last : Option RetryError) (e : RetryError)
      → judge (next i) ≡ some e
      → retry_from grow random cfg next (suc rounds) i last
        ≡ behind rounds i (retry_from grow random cfg next rounds (suc i) (judge (next i)))
  unfolding retry_from
  retry_from_failed rounds i last e failed =
      subst
        (λ (o : Option RetryError).
          Path Run
            (elim o [
              | none ↦ record { error = none; calls = 1; waits = [] }
              | some e ↦
                  behind rounds i (retry_from grow random cfg next rounds (suc i) (judge (next i)))
            ])
            (behind rounds i (retry_from grow random cfg next rounds (suc i) (judge (next i)))))
        (sym failed) refl

  failed_not_none : (i : ℕ) (e : RetryError) → judge (next i) ≡ some e → judge (next i) ≢ none
  failed_not_none i e failed none_ = absurd (some_not_none e (sym failed ∙ none_))

  moved : (i k : ℕ) → judge (next (suc i + k)) ≡ judge (next (i + suc k))
  moved i k = ap (λ n. judge (next n)) (omega arith)

  stays : (i : ℕ) → judge (next i) ≡ judge (next (i + 0))
  stays i = ap (λ n. judge (next n)) (omega arith)

  last_failed :
      (i : ℕ) → Ends 1 i (behind 0 i (retry_from grow random cfg next 0 (suc i) (judge (next i))))
  unfolding retry_from
  last_failed i = (0, omega arith, tt, stays i, inr refl, refl, refl, tt)

  failed_before :
      (rounds i : ℕ) (e : RetryError) (rest : Run)
      → judge (next i) ≡ some e
      → Ends (suc rounds) (suc i) rest
      → Ends (suc (suc rounds)) i (behind (suc rounds) i rest)
  failed_before rounds i e rest failed (k, below, fails, ends, why, calls, waits, short) = (
    suc k,
    omega (arith, below),
    (failed_not_none i e failed, fails),
    ends ∙ moved i k,
    elim why [ inl fine ↦ inl fine | inr used ↦ inr (ap suc used) ],
    ap suc calls,
    ap suc waits,
    (next_backoff_duration_bounds grow (random i) i _ _, short),
  )

  retry_from-Ends :
      (rounds i : ℕ) (last : Option RetryError)
      → Ends (suc rounds) i (retry_from grow random cfg next (suc rounds) i last)
  retry_from-Ends zero i last = elim (Option-cases (judge (next i))) [
    | inl ok ↦
        subst (Ends 1 i) (sym (retry_from_last 0 i last ok))
          (0, omega arith, tt, sym ok ∙ stays i, inl refl, refl, refl, tt)
    | inr (e, failed) ↦ subst (Ends 1 i) (sym (retry_from_failed 0 i last e failed)) (last_failed i)
  ]
  retry_from-Ends (suc rounds) i last = elim (Option-cases (judge (next i))) [
    | inl ok ↦
        subst (Ends (suc (suc rounds)) i) (sym (retry_from_last (suc rounds) i last ok))
          (0, omega arith, tt, sym ok ∙ stays i, inl refl, refl, refl, tt)
    | inr (e, failed) ↦
        subst (Ends (suc (suc rounds)) i) (sym (retry_from_failed (suc rounds) i last e failed))
          (failed_before rounds i e _ failed (retry_from-Ends rounds (suc i) (judge (next i))))
  ]

  -- For a method that may be repeated, outside any other retry and with MaxRetries of at least 0,
  -- some number k, at most MaxRetries, of calls of c.Next() fail, and it is called once more: the
  -- middleware returns what that last call gives, which is nil or comes when the retries are used
  -- up. It has called c.Next() k + 1 times and has waited k times, never longer than MaxBackoff.
  pub retry-Ends :
      (method : String) (n : ℕ)
      → is_repeatable method ≡ true
      → cfg.max_retries ≡ pos n
      → Ends (suc n) 0 (retry grow random cfg next method false)
  unfolding retry retry_from
  retry-Ends method n repeatable is = rw (retry, repeatable, is) (retry_from-Ends n 0 none)
