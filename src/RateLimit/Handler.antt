-- ===== src/RateLimit/Handler.antt =====
-- server/middleware/rate_limit.go: the RateLimit and RateLimitPost middleware. A request passes the
-- limiters in one go (`admit`), the handlers below it run, and `settle` may give its hits back; the
-- store may have changed in between. A request is seen through its IP, user id, key id and roles. The
-- clock is read once for `admit`, and for every lookup and every Allow of `admit_post`.
pub mod Isolation
pub mod Sharing
pub mod Refund
use sdk_api.Base.{
  ℕ, zero, suc, ◌+◌, ◌-◌, ◌*◌, ◌≤◌, ◌<◌, ◌/◌, ◌%◌, String, ◌≡◌, refl, sym, ap, ◌∙◌, ◌≢◌, ◌↔◌, ◌⊎◌,
  inl, inr, Bool, true, false, not, ◌&&◌, ◌||◌, Option, none, some, List, [], ◌∷◌, ◌++◌, map, arith,
  ltb, leb, nat_beq, nat_beq_iff, Eq, ◌==◌, ==_iff, nat_eq, string_eq, if◌then◌else◌, Bool-cases,
  Option-cases, is_some, length, get_elem?, set, take, length-append, length-set,
  get_elem?-append_last, get_elem?-append_left, get_elem?-set_ne, get_elem?-set_self, All, Map,
  lookup, insert, delete, lookup-insert, lookup-delete, contains, contains-cons_self,
  contains-cons_of_contains, contains-cons_cases, IsMap, retain, kept, insert-IsMap, delete-IsMap,
  lookup-retain, retain-IsMap,
}
use sdk_api.RateLimit.Limiter
use sdk_api.RateLimit.Limiter.{External, Limiter, RateLimitEntry, new_limiter}
use sdk_api.RateLimit.Store.{Store, new_store, alloc, get_or_create}

pub record RateLimitConfig : Type 0 where
  pub global : Option RateLimitEntry
  pub per_ip : Option RateLimitEntry
  pub algorithm : String
  pub ttl : ℕ
  pub skip_failed_requests : Bool
  pub skip_successful_requests : Bool
  pub connected : Bool

-- X-RateLimit-Limit, where it is set, and X-RateLimit-Remaining.
pub record Headers : Type 0 where
  pub limit : Option ℕ
  pub remaining : ℕ

-- `setRateLimitHeaders`.
unfoldable pub rate_limit_headers : ℕ → ℕ → Headers
rate_limit_headers limit remaining = record {
  limit = if ltb 0 limit then some limit else none;
  remaining = remaining;
}

-- The way through the limiters: an answer 429, or the limiters used so far and what to report.
pub data Admission : Type 0 where
  too_many : Headers → Admission
  next : (used : List ℕ) (limit remaining : ℕ) → Admission

-- What the handlers below have done: an error, and the response's status if there is a response.
pub record NextResult : Type 0 where
  pub failed : Bool
  pub status : Option ℕ

-- `entry != nil && entry.RequestsPerSecond > 0`.
abbrev pub active : Option RateLimitEntry → Option RateLimitEntry
active none = none
active (some e) = if ltb 0 e.requests_per_second then some e else none

abbrev algorithm_or_default : String → String
algorithm_or_default alg = if alg == "" then "sliding_window" else alg

-- `shouldSkipRequest`.
unfoldable pub should_skip_request : RateLimitConfig → Option ℕ → Bool
should_skip_request cfg none = false
should_skip_request cfg (some code) =
    (cfg.skip_failed_requests && leb 400 code) || (cfg.skip_successful_requests && ltb code 400)

module _ (ext : External) where
  -- `Allow` and `Remaining` through a pointer; a pointer of the store is never out of the heap.
  unfoldable pub allow_at : ℕ → Store ext → ℕ → Store ext × Bool
  allow_at a s now = elim (get_elem? s.heap a) [
    | none ↦ (s, false)
    | some l ↦
        (record s { heap = set s.heap a (Limiter.allow ext l now).0 }, (Limiter.allow ext l now).1)
  ]

  unfoldable pub remaining_at : ℕ → Store ext → ℕ → ℕ
  remaining_at a s now = elim (get_elem? s.heap a) [
    | none ↦ 0
    | some l ↦ Limiter.remaining ext l now
  ]

  unfoldable pub cancel_at : ℕ → Store ext → Store ext
  cancel_at a s = elim (get_elem? s.heap a) [
    | none ↦ s
    | some l ↦ record s { heap = set s.heap a (Limiter.cancel ext l) }
  ]

  -- `cancelUsed`.
  unfoldable pub cancel_used : List ℕ → Store ext → Store ext
  cancel_used [] s = s
  cancel_used (a ∷ used) s = cancel_used used (cancel_at a s)

  -- The part of `RateLimit` that runs once.
  unfoldable pub rate_limit_store : RateLimitConfig → Store ext
  rate_limit_store cfg =
      let alg = algorithm_or_default cfg.algorithm in
      let s = new_store ext alg cfg.ttl cfg.connected in
      elim (active cfg.global) [
        | none ↦ s
        | some e ↦ record (alloc ext (new_limiter ext "sdk:rl:global" e s.connected alg) s) {
          global = some 0;
        }
      ]

  -- One limiter of the request: `Allow`, then the headers or the next stage.
  unfoldable pub use_limiter : ℕ → ℕ → List ℕ → Store ext → ℕ → Store ext × Admission
  use_limiter a limit used s now =
      let s' = (allow_at a s now).0 in
      (
        s',
        if (allow_at a s now).1
            then next (used ++ a ∷ []) limit (remaining_at a s' now)
            else too_many (rate_limit_headers limit (remaining_at a s' now)),
      )

  abbrev global_limit : RateLimitConfig → ℕ
  global_limit cfg = elim cfg.global [ none ↦ 0 | some e ↦ e.requests_per_second ]

  unfoldable pub admit_global : RateLimitConfig → Store ext → ℕ → Store ext × Admission
  admit_global cfg s now = elim s.global [
    | none ↦ (s, next [] 0 0)
    | some a ↦ use_limiter a (global_limit cfg) [] s now
  ]

  unfoldable pub admit_ip :
      RateLimitConfig → String → ℕ → Store ext × Admission → Store ext × Admission
  admit_ip cfg ip now (s, too_many h) = (s, too_many h)
  admit_ip cfg ip now (s, next used limit remaining) = elim (active cfg.per_ip) [
    | none ↦ (s, next used limit remaining)
    | some e ↦
        let (s', a) = get_or_create ext s "ip" ip e now in
        use_limiter a e.requests_per_second used s' now
  ]

  -- The middleware of `RateLimit`, up to `c.Next()`.
  unfoldable pub admit : RateLimitConfig → Store ext → String → ℕ → Store ext × Admission
  admit cfg s ip now = admit_ip cfg ip now (admit_global cfg s now)

  -- And after it.
  unfoldable pub settle : RateLimitConfig → List ℕ → NextResult → Store ext → Store ext
  settle cfg used r s =
      if ltb 0 (length used) && not r.failed && should_skip_request cfg r.status
      then cancel_used used s
      else s

-- RateLimitPostConfig; `max` is what MaxFunc answers for the request, each time the same,
-- where there is one.
pub record RateLimitPostConfig : Type 0 where
  pub server_per_user : Option RateLimitEntry
  pub server_per_key : Option RateLimitEntry
  pub entry_per_user : Option RateLimitEntry
  pub entry_per_key : Option RateLimitEntry
  pub per_role_limits : Map String (Option RateLimitEntry)

-- `extractUserID`, `extractKeyID` ("" where there is none) and the roles, if authenticated.
pub record Caller : Type 0 where
  pub user_id : String
  pub key_id : String
  pub roles : Option (List String)
  pub max : Option ℕ

-- The times at which the checks of a request look up a limiter and ask it.
pub record PostTimes : Type 0 where
  pub user : ℕ × ℕ
  pub key : ℕ × ℕ
  pub role : ℕ → ℕ × ℕ
  pub entry_user : ℕ × ℕ
  pub entry_key : ℕ × ℕ

-- `resolvePostEntry`.
unfoldable pub resolve_post_entry : Option RateLimitEntry → Option ℕ → Option RateLimitEntry
resolve_post_entry none max = none
resolve_post_entry (some e) none = some e
resolve_post_entry (some e) (some m) =
    if ltb 0 m then some (record { requests_per_second = m; burst = m; ttl = e.ttl }) else some e

module _ (ext : External) where
  blocks : Store ext × Bool → Store ext × Bool
  blocks (s, ok) = (s, not ok)

  -- `checkPostLimitWithCancel`: the store, and whether the request is blocked. The two times are those of
  -- the lookup and of `Allow`.
  unfoldable pub check_post_limit :
      Option RateLimitEntry → Option ℕ → (prefix id : String) → ℕ × ℕ → Store ext → Store ext × Bool
  unfolding blocks resolve_post_entry
  check_post_limit entry max prefix id at s = elim (active (resolve_post_entry entry max)) [
    | none ↦ (s, false)
    | some e ↦
        if id == ""
        then (s, false)
        else let (s', a) = get_or_create ext s prefix id e at.0 in blocks (allow_at ext a s' at.1)
  ]

  -- The loop of `checkRoleLimitsWithCancel`, with the times of each round.
  unfoldable pub check_roles :
      Map String (Option RateLimitEntry) → (ℕ → ℕ × ℕ) → List String → Store ext → Store ext × Bool
  check_roles limits at [] s = (s, false)
  check_roles limits at (role ∷ roles) s =
      let later : ℕ → ℕ × ℕ = λ i. at (suc i) in
      elim (lookup role limits) [
        | none ↦ check_roles limits later roles s
        | some entry ↦ elim (active entry) [
          | none ↦ check_roles limits later roles s
          | some e ↦
              let (s', a) = get_or_create ext s "role" role e (at 0).0 in
              let asked = allow_at ext a s' (at 0).1 in
              let rest = check_roles limits later roles asked.0 in
              if asked.1 then rest else (asked.0, true)
        ]
      ]

  unfoldable pub check_role_limits :
      Map String (Option RateLimitEntry)
      → (ℕ → ℕ × ℕ)
      → Option (List String)
      → Store ext
      → Store ext × Bool
  check_role_limits limits at none s = (s, false)
  check_role_limits limits at (some roles) s = check_roles limits at roles s

  -- The next check, where no earlier one blocked the request.
  abbrev or_else : Store ext × Bool → (Store ext → Store ext × Bool) → Store ext × Bool
  or_else (s, true) check = (s, true)
  or_else (s, false) check = check s

  -- The middleware of `RateLimitPost`: whether it answers 429.
  unfoldable pub admit_post :
      RateLimitPostConfig → Store ext → Caller → PostTimes → Store ext × Bool
  admit_post cfg s c at =
      or_else (check_post_limit cfg.server_per_user c.max "user" c.user_id at.user s) (λ s1.
        or_else (check_post_limit cfg.server_per_key c.max "key" c.key_id at.key s1) (λ s2.
          or_else (check_role_limits cfg.per_role_limits at.role c.roles s2) (λ s3.
            or_else
              (check_post_limit cfg.entry_per_user c.max "entry_user" c.user_id at.entry_user s3)
              (λ s4.
                check_post_limit cfg.entry_per_key c.max "entry_key" c.key_id at.entry_key s4))))
