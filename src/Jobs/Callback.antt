-- ===== src/Jobs/Callback.antt =====
-- runtime/async_job.go: notifyCallback. The HTTP client is a parameter, the answer to each attempt;
-- the pause between two attempts has no effect on the result.
pub mod Delivered
use sdk_api.Base.{
  ℕ, zero, suc, ◌+◌, ◌-◌, ◌*◌, ◌≤◌, ◌<◌, ◌/◌, ◌%◌, String, ◌≡◌, refl, sym, ap, ◌∙◌, ◌≢◌, ◌↔◌, ◌⊎◌,
  inl, inr, Bool, true, false, not, ◌&&◌, ◌||◌, Option, none, some, List, [], ◌∷◌, ◌++◌, map, arith,
  ltb, leb, nat_beq, nat_beq_iff, Eq, ◌==◌, ==_iff, nat_eq, string_eq, if◌then◌else◌, Bool-cases,
  Option-cases, is_some, length, get_elem?, set, take, length-append, length-set,
  get_elem?-append_last, get_elem?-append_left, get_elem?-set_ne, get_elem?-set_self, All, Map,
  lookup, insert, delete, lookup-insert, lookup-delete, contains, contains-cons_self,
  contains-cons_of_contains, contains-cons_cases, IsMap, retain, kept, insert-IsMap, delete-IsMap,
  lookup-retain, retain-IsMap,
}
use sdk_api.Jobs.Store.{JobState}

-- AsyncCallbackConf; a retry count that is not positive is 0.
pub record AsyncCallbackConf : Type 0 where
  pub url : String
  pub secret : String
  pub retry : ℕ

-- One round of the loop: the request cannot be made, it fails, or it is answered.
pub data Attempt : Type 0 where
  cannot_build unreachable : Attempt
  answered : (status : ℕ) → Attempt

-- The end of the loop, with the number of requests that were tried.
pub data Delivery : Type 0 where
  delivered gave_up aborted : ℕ → Delivery

abbrev is_success : ℕ → Bool
is_success status = leb 200 status && ltb status 300

-- The loop, with the rounds that are left.
unfoldable pub deliver : (ℕ → Attempt) → (rounds attempt : ℕ) → Delivery
deliver send zero attempt = gave_up attempt
deliver send (suc rounds) attempt =
    let again = deliver send rounds (attempt + 1) in
    elim (send attempt) [
      | cannot_build ↦ aborted attempt
      | unreachable ↦ again
      | answered status ↦ if is_success status then delivered (attempt + 1) else again
    ]

-- How `notifyCallback` ends; `panicked` is the nil dereference of `m.callback.Retry`.
pub data Notice : Type 0 where
  no_job no_url panicked : Notice
  sent : (url : String) (signed : Bool) → Delivery → Notice

abbrev pub max_retry : AsyncCallbackConf → ℕ
max_retry conf = if conf.retry == 0 then 3 else conf.retry

abbrev post : (ℕ → Attempt) → String → String → Option AsyncCallbackConf → Notice
post send url secret none = panicked
post send url secret (some conf) =
    sent url (not (secret == "")) (deliver send (max_retry conf + 1) 0)

-- The static URL and its secret, where the job has no URL of its own.
abbrev post_static : (ℕ → Attempt) → Option AsyncCallbackConf → Notice
post_static send none = no_url
post_static send (some conf) =
    if conf.url == "" then no_url else post send conf.url conf.secret (some conf)

-- `notifyCallback`, on what `Get` finds.
unfoldable pub notify_callback : (ℕ → Attempt) → Option AsyncCallbackConf → Option JobState → Notice
notify_callback send callback none = no_job
notify_callback send callback (some js) =
    if js.callback_url == ""
    then post_static send callback
    else post send js.callback_url "" callback
