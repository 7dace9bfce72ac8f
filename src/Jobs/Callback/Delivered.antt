-- ===== src/Jobs/Callback/Delivered.antt =====
-- runtime/async_job.go, notifyCallback: what the number and the end of the attempts say.
use sdk_api.Base.{
  ℕ, zero, suc, ◌+◌, ◌<◌, String, ◌≡◌, refl, ◌≢◌, ◌⊎◌, inl, inr, Bool, true, false, not, Option,
  none, some, arith, ◌==◌, ==_iff, nat_eq, string_eq, Bool-cases, Option-cases,
}
use sdk_api.Jobs.Store.{JobState}
use sdk_api.Jobs.Callback.{
  AsyncCallbackConf, Attempt, cannot_build, unreachable, answered, Delivery, delivered, gave_up,
  aborted, is_success, deliver, panicked, sent, max_retry, notify_callback,
}

-- An attempt after which the loop goes on.
abbrev pub IsRetried : Attempt → Type 0
IsRetried cannot_build = ⊥
IsRetried unreachable = Unit
IsRetried (answered status) = is_success status ≡ false

-- How many requests a result reports, and what the attempts were, from `first` on.
abbrev pub Explains : (ℕ → Attempt) → (rounds first : ℕ) → Delivery → Type 0
Explains send rounds first (delivered n) =
    (k : ℕ) × (k < rounds)
    × (n ≡ first + k + 1)
    × ((status : ℕ) × (send (first + k) ≡ answered status) × (is_success status ≡ true))
    × ((j : ℕ) → j < k → IsRetried (send (first + j)))
Explains send rounds first (gave_up n) =
    (n ≡ first + rounds) × ((j : ℕ) → j < rounds → IsRetried (send (first + j)))
Explains send rounds first (aborted n) =
    (k : ℕ) × (k < rounds)
    × (n ≡ first + k)
    × (send (first + k) ≡ cannot_build)
    × ((j : ℕ) → j < k → IsRetried (send (first + j)))

IsRetried-from :
    (send : ℕ → Attempt) (first k : ℕ)
    → IsRetried (send first)
    → ((j : ℕ) → j < k → IsRetried (send (first + 1 + j)))
    → (j : ℕ) → j < suc k
    → IsRetried (send (first + j))
IsRetried-from send first k again h zero lt = let e : first + 0 ≡ first = omega arith in rw e again
IsRetried-from send first k again h (suc j) lt =
    let e : first + suc j ≡ first + 1 + j = omega arith in rw e (h j (omega arith))

Explains-retry :
    (send : ℕ → Attempt) (rounds first : ℕ) (d : Delivery)
    → IsRetried (send first)
    → Explains send rounds (first + 1) d
    → Explains send (suc rounds) first d
Explains-retry send rounds first (delivered n) again (k, lt, e, (status, s, good), h) =
    let shift : first + suc k ≡ first + 1 + k = omega arith in
    (
      suc k,
      omega arith,
      omega arith,
      (status, rw shift s, good),
      IsRetried-from send first k again h,
    )
Explains-retry send rounds first (gave_up n) again (e, h) =
    (omega arith, IsRetried-from send first rounds again h)
Explains-retry send rounds first (aborted n) again (k, lt, e, s, h) =
    let shift : first + suc k ≡ first + 1 + k = omega arith in
    (suc k, omega arith, omega arith, rw shift s, IsRetried-from send first k again h)

Attempt-cases :
    (a : Attempt) → (a ≡ cannot_build) ⊎ (a ≡ unreachable) ⊎ ((status : ℕ) × (a ≡ answered status))
Attempt-cases cannot_build = inl refl
Attempt-cases unreachable = inr (inl refl)
Attempt-cases (answered status) = inr (inr (status, refl))

deliver-Explains :
    (send : ℕ → Attempt) (rounds first : ℕ) → Explains send rounds first (deliver send rounds first)
unfolding deliver
deliver-Explains send zero first = (omega arith, λ j lt. absurd (omega arith))
deliver-Explains send (suc rounds) first =
    let start : first + 0 ≡ first = omega arith in
    let later = deliver-Explains send rounds (first + 1) in
    let go = Explains-retry send rounds first (deliver send rounds (first + 1)) in
    elim (Attempt-cases (send first)) [
      | inl e ↦
          rw (e, deliver) (0, omega arith, omega arith, rw start e, λ j lt. absurd (omega arith))
      | inr (inl e) ↦ rw (e, deliver) (go (rw e tt) later)
      | inr (inr (status, e)) ↦ elim (Bool-cases (is_success status)) [
        | inl good ↦
            rw (e, deliver)
              (rw good (
                0,
                omega arith,
                omega arith,
                (status, rw start e, good),
                λ j lt. absurd (omega arith),
              ))
        | inr bad ↦ rw (e, deliver) (rw bad (go (rw e bad) later))
      ]
    ]

-- A callback is posted at most `retry` times after the first (three times where no count is set):
-- it stops at the first answer 2xx, and gives up only when every attempt has failed or was answered
-- otherwise.
pub notify_callback-Explains :
    (send : ℕ → Attempt) (conf : AsyncCallbackConf) (found : Option JobState) (url : String)
    (signed : Bool) (d : Delivery)
    → notify_callback send (some conf) found ≡ sent url signed d
    → Explains send (max_retry conf + 1) 0 d
unfolding notify_callback
notify_callback-Explains send conf found url signed d e =
    let same : d ≡ deliver send (max_retry conf + 1) 0 = elim (Option-cases found) [
      | inl missing ↦ ground arith
      | inr (js, listed) ↦ ground (arith, ==_iff js.callback_url "", ==_iff conf.url "")
    ] in
    rw same (deliver-Explains send (max_retry conf + 1) 0)

-- A job's own callback URL is never signed, and the static URL is signed exactly where it has a
-- secret.
pub notify_callback_signed :
    (send : ℕ → Attempt) (conf : AsyncCallbackConf) (js : JobState) (url : String) (signed : Bool)
    (d : Delivery)
    → notify_callback send (some conf) (some js) ≡ sent url signed d
    → ((js.callback_url ≢ "") × (url ≡ js.callback_url) × (signed ≡ false))
      ⊎ ((js.callback_url ≡ "") × (url ≡ conf.url) × (signed ≡ not (conf.secret == "")))
unfolding notify_callback
notify_callback_signed send conf js url signed d e =
    ground (arith, ==_iff js.callback_url "", ==_iff conf.url "")

-- Where a job brings a callback URL and the entry has no callback section, the goroutine that is to
-- notify it dereferences the missing section and panics.
pub notify_callback_panics :
    (send : ℕ → Attempt) (js : JobState)
    → js.callback_url ≢ ""
    → notify_callback send none (some js) ≡ panicked
unfolding notify_callback
notify_callback_panics send js named = ground (arith, ==_iff js.callback_url "")
