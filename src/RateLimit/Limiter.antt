-- ===== src/RateLimit/Limiter.antt =====
-- server/middleware/rate_limit.go: the `limiter` interface and its three implementations. The token
-- buckets are not this repository's: golang.org/x/time/rate is a parameter, and so is the
-- infra/limit.TokenLimiter on Redis. Times are `time.Now()` in nanoseconds.
use sdk_api.Base.{
  ℕ, ◌+◌, ◌-◌, ◌/◌, String, ◌≡◌, Bool, true, arith, ltb, ◌==◌, nat_eq, string_eq, if◌then◌else◌,
}
use sdk_api.RateLimit.Window
use sdk_api.RateLimit.Window.{Window, new_window}

-- What the middleware uses of the two token buckets.
pub record External : Type 1 where
  pub Bucket : Type 0
  pub new_bucket : (rate burst : ℕ) → Bucket
  pub bucket_allow : Bucket → ℕ → Bucket × Bool
  -- The whole tokens left, 0 where the bucket is overdrawn.
  pub bucket_tokens : Bucket → ℕ → ℕ
  pub Remote : Type 0
  pub new_remote : (rate burst : ℕ) → String → Remote
  pub remote_allow : Remote → ℕ → Remote × Bool

abbrev pub second : ℕ
second = 1_000_000_000

-- RateLimitEntry. A number that is not positive is 0: the code tests `> 0` and `<= 0` only.
pub record RateLimitEntry : Type 0 where
  pub requests_per_second : ℕ
  pub burst : ℕ
  pub ttl : ℕ

module _ (ext : External) where
  open ext use {Bucket, new_bucket, bucket_allow, bucket_tokens, Remote, new_remote, remote_allow}

  -- slidingWindowLimiter, xrateLimiter (with `owed`) and redisLimiter.
  pub data Limiter : Type 0 where
    sliding : Window → Limiter
    xrate : Bucket → (owed : ℕ) → Limiter
    redis : Remote → Limiter

  xrate_answer : ℕ → Bucket × Bool → Limiter × Bool
  xrate_answer owed (b, ok) = (xrate b owed, ok)

  redis_answer : Remote × Bool → Limiter × Bool
  redis_answer (r, ok) = (redis r, ok)

  -- `Allow` of each implementation.
  unfoldable pub allow : Limiter → ℕ → Limiter × Bool
  unfolding xrate_answer redis_answer
  allow (sliding w) now =
      (sliding (Window.allow w (now / second)).0, (Window.allow w (now / second)).1)
  allow (xrate b owed) now =
      if ltb 0 owed then (xrate b (owed - 1), true) else xrate_answer owed (bucket_allow b now)
  allow (redis r) now = redis_answer (remote_allow r now)

  -- `Remaining` of each implementation.
  unfoldable pub remaining : Limiter → ℕ → ℕ
  remaining (sliding w) now = Window.remaining w (now / second)
  remaining (xrate b owed) now = bucket_tokens b now
  remaining (redis r) now = 0

  -- `Cancel` of each implementation; all three have it, so `isCancellable` always finds it.
  unfoldable pub cancel : Limiter → Limiter
  cancel (sliding w) = sliding (Window.cancel w)
  cancel (xrate b owed) = xrate b (owed + 1)
  cancel (redis r) = redis r

  -- `newLimiter`; `connected` says that the store has a Redis connection.
  unfoldable pub new_limiter :
      (key : String) → RateLimitEntry → (connected : Bool) → (alg : String) → Limiter
  new_limiter key entry connected alg =
      if connected
      then redis (new_remote entry.requests_per_second entry.burst key)
      else if alg == "sliding_window"
      then sliding (new_window entry.requests_per_second entry.burst)
      else xrate (new_bucket entry.requests_per_second entry.burst) 0

  -- A request that a limiter let through and that was cancelled is owed: the next one is let
  -- through without asking the bucket.
  pub xrate_owed :
      (b : Bucket) (owed now : ℕ) → allow (cancel (xrate b owed)) now ≡ (xrate b owed, true)
  unfolding allow cancel
  xrate_owed b owed now = ground arith
