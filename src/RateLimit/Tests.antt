-- ===== src/RateLimit/Tests.antt =====
-- server/middleware/rate_limit.go and limiter_sliding.go on concrete requests. The token buckets
-- are counters that are never refilled.
mod Skipped
use mathlib.Core.Option.{some-injective}
use sdk_api.Base.{
  ℕ, subst, zero, suc, ◌+◌, ◌-◌, ◌*◌, ◌≤◌, ◌<◌, ◌/◌, ◌%◌, ◌^◌, String, ◌≡◌, refl, sym, ap, ◌∙◌, ◌≢◌,
  ◌↔◌, ◌⊎◌, inl, inr, Bool, true, false, not, ◌&&◌, ◌||◌, Option, none, some, List, [], ◌∷◌, ◌++◌,
  map, arith, ltb, leb, nat_beq, nat_beq_iff, Eq, ◌==◌, ==_iff, nat_eq, string_eq, if◌then◌else◌,
  Bool-cases, Option-cases, is_some, length, get_elem?, set, take, length-append, length-set,
  get_elem?-append_last, get_elem?-append_left, get_elem?-set_ne, get_elem?-set_self, All, Map,
  lookup, insert, delete, lookup-insert, lookup-delete, contains, contains-cons_self,
  contains-cons_of_contains, contains-cons_cases, IsMap, retain, kept, insert-IsMap, delete-IsMap,
  lookup-retain, retain-IsMap,
}
use sdk_api.RateLimit.Window.{Window, new_window, allow, remaining, cancel}
use sdk_api.RateLimit.Window.Fixed.{IsFixed, spec_allow, view, allow-spec_allow}
use sdk_api.RateLimit.Window.Budget.{
  grants, replicate, grants_within, grants_boundary, allow-remaining,
}
use sdk_api.RateLimit.Window.History.{
  Call, allow_at, cancelled, answers, spec_answers, new_window-answers,
}
use sdk_api.RateLimit.Limiter.{External, RateLimitEntry, second}
use sdk_api.RateLimit.Store.{
  per_ip, gc, Store, new_store, get_or_create, create, rows, put_rows, alloc, table_of, is_live,
  EntryState,
}
use sdk_api.RateLimit.Store.Entries.{LiveAt}
use sdk_api.RateLimit.Store.Collection.{get_or_create-gc}
use sdk_api.RateLimit.Store.Ownership.{
  IsValid, new_store-IsValid, get_or_create-IsValid, get_or_create_owner, gc-IsValid,
}
use sdk_api.RateLimit.Handler.{RateLimitConfig, Caller, PostTimes, admit, admit_post}
use sdk_api.RateLimit.Handler.Isolation.{Untouched, admit-IsValid, admit-Untouched}
use sdk_api.RateLimit.Handler.Sharing.{per_key_limits, StaysLive, admit_post_ignores_entry_per_key}
use sdk_api.RateLimit.Store.Entries.{entry_at}

-- Two requests in three seconds; a fresh one, and one in its window.
abbrev fresh : Window
fresh = record { prev_hits = 0; curr_hits = 0; window_exp = 0; max = 2; expiration = 3 }

abbrev half_full : Window
half_full = record { prev_hits = 0; curr_hits = 1; window_exp = 10; max = 2; expiration = 3 }

fresh-IsFixed : IsFixed fresh
fresh-IsFixed = ground arith

half_full-IsFixed : IsFixed half_full
half_full-IsFixed = ground arith

abbrev calls : List Call
calls = allow_at 7 ∷ allow_at 8 ∷ allow_at 9 ∷ cancelled ∷ allow_at 9 ∷ allow_at 10 ∷ []

answers_test : answers (new_window 2 3) calls ≡ true ∷ true ∷ false ∷ true ∷ true ∷ []
unfolding answers allow cancel new_window
answers_test = refl

new_window-answers_example :
    answers (new_window 2 3) calls ≡ spec_answers 2 3 (record { open_until = 0; hits = 0 }) calls
new_window-answers_example = new_window-answers 2 3 calls (omega arith)

-- A bucket counts down from its burst.
abbrev spend : ℕ → ℕ → ℕ × Bool
spend zero now = (0, false)
spend (suc n) now = (n, true)

abbrev pub counters : External
counters = record {
  Bucket = ℕ;
  new_bucket = λ rate burst. burst;
  bucket_allow = spend;
  bucket_tokens = λ n now. n;
  Remote = ℕ;
  new_remote = λ rate burst key. burst;
  remote_allow = spend;
}

abbrev pub empty_store : Store counters
empty_store = new_store counters "sliding_window" (60 * second) false

abbrev pub three_per_second : RateLimitEntry
three_per_second = record { requests_per_second = 3; burst = 3; ttl = 0 }

abbrev one_per_second : RateLimitEntry
one_per_second = record { requests_per_second = 1; burst = 1; ttl = 0 }

empty_store-IsValid : IsValid counters empty_store
empty_store-IsValid = new_store-IsValid counters "sliding_window" (60 * second) false

abbrev one_ip : Store counters
one_ip = (get_or_create counters empty_store "ip" "10.0.0.1" three_per_second 5).0

one_ip-IsValid : IsValid counters one_ip
one_ip-IsValid =
    get_or_create-IsValid counters empty_store empty_store-IsValid "ip" "10.0.0.1" three_per_second
      5

abbrev pub per_ip_limit : RateLimitConfig
per_ip_limit = record {
  global = none;
  per_ip = some three_per_second;
  algorithm = "sliding_window";
  ttl = 60 * second;
  skip_failed_requests = true;
  skip_successful_requests = false;
  connected = false;
}

admit-Untouched_example :
    Untouched counters per_ip "10.0.0.1" one_ip (admit counters per_ip_limit one_ip "10.0.0.2" 7).0
admit-Untouched_example =
    admit-Untouched counters per_ip_limit one_ip "10.0.0.2" "10.0.0.1" 7 one_ip-IsValid
      (λ e. ground (arith, ==_iff {K = String} "10.0.0.2" "10.0.0.1"))

abbrev admin : Caller
admin = record { user_id = "ann"; key_id = "k1"; roles = some ("admin" ∷ []); max = none }

-- One nanosecond after the other.
abbrev post_times : PostTimes
post_times = record {
  user = (1, 2);
  key = (3, 4);
  role = λ i. (5 + i, 5 + i);
  entry_user = (6, 7);
  entry_key = (8, 9);
}

key-StaysLive : StaysLive counters empty_store "key" "k1" three_per_second 3 8
unfolding get_or_create create new_store entry_at rows put_rows alloc table_of lookup insert delete
key-StaysLive es found =
    let made : EntryState = record { limiter = 0; expires_at = 3 + 60 * second } in
    subst (λ (e : EntryState). is_live e 8 ≡ true) (some-injective made es found) refl

admit_post_ignores_entry_per_key_example :
    admit_post counters
      (per_key_limits three_per_second one_per_second)
      empty_store
      admin
      post_times
    ≡ admit_post counters
        (per_key_limits three_per_second three_per_second)
        empty_store
        admin
        post_times
admit_post_ignores_entry_per_key_example =
    admit_post_ignores_entry_per_key counters empty_store empty_store-IsValid admin three_per_second
      post_times (omega arith) (λ e. ground (arith, ==_iff {K = String} "k1" "")) key-StaysLive
      one_per_second three_per_second (omega arith) (omega arith)
