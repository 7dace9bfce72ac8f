-- ===== src/RateLimit/Tests/Skipped.antt =====
-- server/middleware/rate_limit.go: a request that is skipped after it was answered.
use sdk_api.Base.{
  ℕ, ◌*◌, ◌≡◌, refl, true, false, none, some, [], ◌∷◌, arith, nat_eq, string_eq, get_elem?, lookup,
  insert, delete,
}
use sdk_api.RateLimit.Window
use sdk_api.RateLimit.Window.{Window, new_window}
use sdk_api.RateLimit.Window.Fixed.{IsFixed}
use sdk_api.RateLimit.Limiter
use sdk_api.RateLimit.Limiter.{External, Limiter, sliding, RateLimitEntry, new_limiter, second}
use sdk_api.RateLimit.Store.{
  Store, new_store, rows, put_rows, alloc, table_of, create, get_or_create,
}
use sdk_api.RateLimit.Handler.{
  NextResult, next, should_skip_request, allow_at, use_limiter, admit_global, admit_ip, admit,
  settle,
}
use sdk_api.RateLimit.Handler.Refund.{settle-admit}
use sdk_api.RateLimit.Tests.{counters, empty_store, three_per_second, per_ip_limit}

-- One request has been let through at second 5.
abbrev used_once : Store counters
used_once = (admit counters per_ip_limit empty_store "10.0.0.1" (5 * second)).0

abbrev once : Window
once = record { prev_hits = 0; curr_hits = 1; window_exp = 8; max = 3; expiration = 3 }

abbrev not_found : NextResult
not_found = record { failed = false; status = some 404 }

holds_once :
    let held = get_or_create counters used_once "ip" "10.0.0.1" three_per_second (6 * second) in
    get_elem? held.0.heap held.1 ≡ some (sliding once)
unfolding admit admit_global admit_ip use_limiter allow_at get_or_create create new_store
    new_limiter new_window Window.allow rows put_rows table_of lookup insert delete Limiter.allow
    alloc
holds_once = refl

no_global : used_once.global ≡ none
unfolding admit admit_global admit_ip use_limiter allow_at get_or_create create new_store
    new_limiter new_window Window.allow rows put_rows table_of lookup insert delete Limiter.allow
    alloc
no_global = refl

skipped : should_skip_request per_ip_limit not_found.status ≡ true
unfolding should_skip_request
skipped = refl

once-IsFixed : IsFixed once
once-IsFixed = ground arith

settle-admit_example :
    let held = get_or_create counters used_once "ip" "10.0.0.1" three_per_second (6 * second) in
    (limit : ℕ) × (left : ℕ) × ((admit counters per_ip_limit used_once "10.0.0.1" (6 * second)).1
      ≡ next (held.1 ∷ []) limit left)
    × (settle counters per_ip_limit
          (held.1 ∷ [])
          not_found
          (admit counters per_ip_limit used_once "10.0.0.1" (6 * second)).0
        ≡ held.0)
settle-admit_example =
    settle-admit counters per_ip_limit used_once "10.0.0.1" (6 * second) three_per_second no_global
      refl once not_found holds_once once-IsFixed (omega arith) (omega arith) refl skipped
