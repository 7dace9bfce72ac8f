-- ===== src/RateLimit/Store.antt =====
-- server/middleware/rate_limit.go: rateLimiterStore. A limiter is a pointer that its map entry and
-- the requests in flight share, so the store keeps a heap of limiters and the maps hold addresses.
-- Every method holds the store's lock and is one step; `now` is `time.Now().UnixNano()`.
pub mod Entries
pub mod Ownership
pub mod Collection
use sdk_api.Base.{
  ℕ, zero, suc, ◌+◌, ◌-◌, ◌*◌, ◌≤◌, ◌<◌, ◌/◌, ◌%◌, String, ◌≡◌, refl, sym, ap, ◌∙◌, ◌≢◌, ◌↔◌, ◌⊎◌,
  inl, inr, Bool, true, false, not, ◌&&◌, ◌||◌, Option, none, some, List, [], ◌∷◌, ◌++◌, map, arith,
  ltb, leb, nat_beq, nat_beq_iff, Eq, ◌==◌, ==_iff, nat_eq, string_eq, if◌then◌else◌, Bool-cases,
  Option-cases, is_some, length, get_elem?, set, take, length-append, length-set,
  get_elem?-append_last, get_elem?-append_left, get_elem?-set_ne, get_elem?-set_self, All, Map,
  lookup, insert, delete, lookup-insert, lookup-delete, contains, contains-cons_self,
  contains-cons_of_contains, contains-cons_cases, IsMap, retain, kept, insert-IsMap, delete-IsMap,
  lookup-retain, retain-IsMap,
}
use Prim.Native.String
use sdk_api.RateLimit.Limiter.{External, Limiter, RateLimitEntry, new_limiter}

pub record EntryState : Type 0 where
  pub limiter : ℕ
  pub expires_at : ℕ

-- The three maps of the store.
pub data Table : Type 0 where
  per_ip per_user per_key : Table

abbrev pub table_beq : Table → Table → Bool
table_beq per_ip per_ip = true
table_beq per_user per_user = true
table_beq per_key per_key = true
table_beq _ _ = false

-- The switch of `getOrCreateLimiter` on the prefix.
unfoldable pub table_of : String → Table
table_of prefix =
    if prefix == "ip"
    then per_ip
    else if prefix == "key" || prefix == "entry_key"
    then per_key
    else per_user

abbrev pub is_live : EntryState → ℕ → Bool
is_live es now = es.expires_at == 0 || ltb now es.expires_at

abbrev pub is_stale : EntryState → ℕ → Bool
is_stale es now = ltb 0 es.expires_at && leb es.expires_at now

pub record Store (ext : External) : Type 0 where
  pub heap : List (Limiter ext)
  pub global : Option ℕ
  pub ips : Map String EntryState
  pub users : Map String EntryState
  pub keys : Map String EntryState
  pub connected : Bool
  pub alg : String
  pub ttl : ℕ

-- The key of the limiter on Redis.
abbrev limiter_key : String → String → String
limiter_key prefix key = String.◌++◌ "sdk:rl:" (String.◌++◌ prefix (String.◌++◌ ":" key))

module _ (ext : External) where
  -- `newRateLimiterStore`.
  unfoldable pub new_store : (alg : String) (ttl : ℕ) (connected : Bool) → Store ext
  new_store alg ttl connected = record {
    heap = [];
    global = none;
    ips = [];
    users = [];
    keys = [];
    connected = connected;
    alg = alg;
    ttl = ttl;
  }

  unfoldable pub rows : Table → Store ext → Map String EntryState
  rows per_ip s = s.ips
  rows per_user s = s.users
  rows per_key s = s.keys

  unfoldable pub put_rows : Table → Map String EntryState → Store ext → Store ext
  put_rows per_ip m s = record s { ips = m }
  put_rows per_user m s = record s { users = m }
  put_rows per_key m s = record s { keys = m }

  -- `&limiter{…}`: a new limiter at a new address.
  unfoldable pub alloc : Limiter ext → Store ext → Store ext
  alloc l s = record s { heap = s.heap ++ l ∷ [] }

  abbrev expiry : RateLimitEntry → Store ext → ℕ → ℕ
  expiry entry s now =
      let ttl = if entry.ttl == 0 then s.ttl else entry.ttl in if ltb 0 ttl then now + ttl else 0

  -- The second half of `getOrCreateLimiter`, where no live entry was found.
  unfoldable pub create : Store ext → String → String → RateLimitEntry → ℕ → Store ext × ℕ
  unfolding alloc
  create s prefix key entry now = (
    put_rows (table_of prefix)
        (insert key (record { limiter = length s.heap; expires_at = expiry entry s now })
          (delete key (rows (table_of prefix) s)))
        (alloc (new_limiter ext (limiter_key prefix key) entry s.connected s.alg) s),
    length s.heap,
  )

  -- `getOrCreateLimiter`.
  unfoldable pub get_or_create : Store ext → String → String → RateLimitEntry → ℕ → Store ext × ℕ
  get_or_create s prefix key entry now = elim (lookup key (rows (table_of prefix) s)) [
    | none ↦ create s prefix key entry now
    | some es ↦ if is_live es now then (s, es.limiter) else create s prefix key entry now
  ]

  -- `gc`.
  unfoldable pub gc : Store ext → ℕ → Store ext
  gc s now = record s {
    ips = retain (λ k es. not (is_stale es now)) s.ips;
    users = retain (λ k es. not (is_stale es now)) s.users;
    keys = retain (λ k es. not (is_stale es now)) s.keys;
  }
