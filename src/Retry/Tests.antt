-- ===== src/Retry/Tests.antt =====
-- Runs of server/middleware/retry.go.
use sdk_api.Base.{
  ℕ, ◌*◌, ◌≡◌, refl, false, Option, none, [], ◌∷◌, leb, nat_eq, string_eq, if◌then◌else◌,
}
use sdk_api.Base.Decimal.{pos, negsuc}
use sdk_api.Retry.{RetryConfig, Attempt, next_backoff_duration, retry_from, retry}
use sdk_api.Retry.Attempts.{Ends, retry-Ends}

abbrev doubled : ℕ → ℕ
doubled d = d * 2

abbrev not_random : ℕ → Option ℕ
not_random i = none

abbrev thrice : RetryConfig
thrice = record { max_retries = pos 3; initial_interval = 100; max_backoff = 150 }

-- The third call is the first that succeeds.
abbrev third_succeeds : ℕ → Attempt
third_succeeds i = record { error = none; status = if leb 2 i then 200 else 503 }

two_waits :
    retry doubled not_random thrice third_succeeds "GET" false
    ≡ record { error = none; calls = 3; waits = 100 ∷ 150 ∷ [] }
unfolding retry retry_from next_backoff_duration
two_waits = refl

posted_once :
    retry doubled not_random thrice third_succeeds "POST" false
    ≡ record { error = none; calls = 1; waits = [] }
unfolding retry
posted_once = refl

-- Below 0 retries `c.Next()` is not called, and nil is returned.
never_run :
    retry doubled not_random (record thrice { max_retries = negsuc 0 }) third_succeeds "GET" false
    ≡ record { error = none; calls = 0; waits = [] }
unfolding retry retry_from
never_run = refl

retry-Ends_example :
    Ends doubled not_random thrice third_succeeds 4 0
      (retry doubled not_random thrice third_succeeds "GET" false)
retry-Ends_example = retry-Ends doubled not_random thrice third_succeeds "GET" 3 refl refl
