-- ===== src/RateLimit/Handler/Isolation.antt =====
-- server/middleware/rate_limit.go: the requests of one key leave the limiters of all others alone.
use sdk_api.Base.{
  ℕ, String, ◌≡◌, refl, ◌∙◌, ◌≢◌, ◌⊎◌, inl, inr, some, List, arith, ==_iff, nat_eq, string_eq,
  Option-cases, length, get_elem?, set, length-set, get_elem?-append_left, get_elem?-set_ne,
}
use sdk_api.RateLimit.Limiter.{External, Limiter, RateLimitEntry}
use sdk_api.RateLimit.Store.{EntryState, Table, per_ip, table_of, Store, rows, get_or_create}
use sdk_api.RateLimit.Store.Entries.{
  table_beq_iff, entry_at, entry_at-create, create_heap, LiveAt-cases, get_or_create_of_live,
  get_or_create_of_NoneLive,
}
use sdk_api.RateLimit.Store.Ownership.{IsValid, get_or_create-IsValid, get_or_create_owner}
use sdk_api.RateLimit.Handler.{
  RateLimitConfig, Admission, too_many, next, active, allow_at, use_limiter, admit_global, admit_ip,
  admit,
}

module _ (ext : External) where
  -- The entry of a key and the state of its limiter are the same in both stores.
  abbrev pub Untouched : Table → String → Store ext → Store ext → Type 0
  Untouched t k s s' =
      (es : EntryState)
      → entry_at ext t k s ≡ some es
      → (entry_at ext t k s' ≡ some es)
        × (get_elem? s'.heap es.limiter ≡ get_elem? s.heap es.limiter)

  Untouched-trans :
      (t : Table) (k : String) (s s' s'' : Store ext)
      → Untouched t k s s'
      → Untouched t k s' s''
      → Untouched t k s s''
  Untouched-trans t k s s' s'' f g es e =
      let (e', h) = f es e in let (e'', h') = g es e' in (e'', h' ∙ h)

  rows_heap :
      (t : Table) (h : List (Limiter ext)) (s : Store ext)
      → rows ext t (record s { heap = h }) ≡ rows ext t s
  unfolding rows
  rows_heap t h s = ground arith

  entry_at_heap :
      (t : Table) (k : String) (h : List (Limiter ext)) (s : Store ext)
      → entry_at ext t k (record s { heap = h }) ≡ entry_at ext t k s
  unfolding entry_at
  entry_at_heap t k h s = rw rows_heap

  heap-IsValid :
      (h : List (Limiter ext)) (s : Store ext)
      → length h ≡ length s.heap
      → IsValid ext s
      → IsValid ext (record s { heap = h })
  heap-IsValid h s same v = record {
    maps = λ t. rw rows_heap (v.maps t);
    in_heap = λ t k es e. rw same (v.in_heap t k es (rw entry_at_heap at e));
    global_in_heap = λ a e. rw same (v.global_in_heap a e);
    own = λ t u k j es fs e f. v.own t u k j es fs (rw entry_at_heap at e) (rw entry_at_heap at f);
    global_apart = λ a t k es e f. v.global_apart a t k es e (rw entry_at_heap at f);
  }

  -- `Allow` through a pointer changes that limiter alone.
  record Allowed (a : ℕ) (s s' : Store ext) : Type 0 where
    heap : List (Limiter ext)
    result : s' ≡ record s { heap = heap }
    same_length : length heap ≡ length s.heap
    others : (b : ℕ) → a ≢ b → get_elem? heap b ≡ get_elem? s.heap b

  allow_at-Allowed : (a : ℕ) (s : Store ext) (now : ℕ) → Allowed a s (allow_at ext a s now).0
  unfolding allow_at
  allow_at-Allowed a s now = elim (Option-cases (get_elem? s.heap a)) [
    | inl missing ↦
        rw (missing, allow_at)
          (record { heap = s.heap; result = refl; same_length = refl; others = λ b h. refl })
    | inr (l, found) ↦
        rw (found, allow_at)
          (record {
            heap = set s.heap a _;
            result = refl;
            same_length = length-set s.heap a _;
            others = λ b h. get_elem?-set_ne s.heap a b _ h;
          })
  ]

  pub allow_at-IsValid :
      (a : ℕ) (s : Store ext) (now : ℕ) → IsValid ext s → IsValid ext (allow_at ext a s now).0
  allow_at-IsValid a s now v =
      let c = allow_at-Allowed a s now in rw c.result (heap-IsValid c.heap s c.same_length v)

  pub allow_at_entry :
      (a : ℕ) (s : Store ext) (now : ℕ) (t : Table) (k : String)
      → entry_at ext t k (allow_at ext a s now).0 ≡ entry_at ext t k s
  allow_at_entry a s now t k =
      let c = allow_at-Allowed a s now in rw c.result (entry_at_heap t k c.heap s)

  allow_at-Untouched :
      (a : ℕ) (s : Store ext) (now : ℕ) (t : Table) (k : String)
      → ((es : EntryState) → entry_at ext t k s ≡ some es → a ≢ es.limiter)
      → Untouched t k s (allow_at ext a s now).0
  allow_at-Untouched a s now t k apart es e =
      let c = allow_at-Allowed a s now in
      rw c.result (rw entry_at_heap e, c.others es.limiter (apart es e))

  -- `getOrCreateLimiter` moves no limiter and no other entry.
  get_or_create-Untouched :
      (s : Store ext) (prefix key : String) (entry : RateLimitEntry) (now : ℕ) (t : Table)
      (k : String)
      → IsValid ext s
      → ¬ ((table_of prefix ≡ t) × (key ≡ k))
      → Untouched t k s (get_or_create ext s prefix key entry now).0
  get_or_create-Untouched s prefix key entry now t k v differs es e =
      elim (LiveAt-cases ext (table_of prefix) key s now) [
        | inl (fs, (found, live)) ↦
            rw (get_or_create_of_live ext s prefix key entry now fs found live) (e, refl)
        | inr dead ↦ rw (get_or_create_of_NoneLive ext s prefix key entry now dead) (
          ground (
            arith,
            entry_at-create ext s prefix key entry now t k,
            table_beq_iff (table_of prefix) t,
            ==_iff key k,
            differs,
          ),
          rw create_heap (get_elem?-append_left s.heap _ es.limiter (v.in_heap t k es e)),
        )
      ]

  -- A key's limiter is fetched and asked: no other key's limiter changes.
  pub get_or_create-allow_at-Untouched :
      (s : Store ext) (prefix key : String) (entry : RateLimitEntry) (now : ℕ) (t : Table)
      (k : String)
      → IsValid ext s
      → ¬ ((table_of prefix ≡ t) × (key ≡ k))
      → let r = get_or_create ext s prefix key entry now in
        Untouched t k s (allow_at ext r.1 r.0 now).0
  get_or_create-allow_at-Untouched s prefix key entry now t k v differs =
      let r = get_or_create ext s prefix key entry now in
      let (fs, held, same) = get_or_create_owner ext s v prefix key entry now in
      let w = get_or_create-IsValid ext s v prefix key entry now in
      Untouched-trans t k s r.0 (allow_at ext r.1 r.0 now).0
        (get_or_create-Untouched s prefix key entry now t k v differs)
        (allow_at-Untouched r.1 r.0 now t k
          (λ es e same'. differs (w.own (table_of prefix) t key k fs es held.0 e (same ∙ same'))))

  use_limiter_store :
      (a limit : ℕ) (used : List ℕ) (s : Store ext) (now : ℕ)
      → (use_limiter ext a limit used s now).0 ≡ (allow_at ext a s now).0
  unfolding use_limiter
  use_limiter_store a limit used s now = refl

  -- The store after the global limiter: the same, or the limiter was asked.
  global_step_cases :
      (cfg : RateLimitConfig) (s : Store ext) (now : ℕ)
      → ((admit_global ext cfg s now).0 ≡ s)
        ⊎ ((a : ℕ) × (s.global ≡ some a)
            × ((admit_global ext cfg s now).0 ≡ (allow_at ext a s now).0))
  unfolding admit_global use_limiter
  global_step_cases cfg s now = elim (Option-cases s.global) [
    | inl missing ↦ inl (ground arith)
    | inr (a, found) ↦ inr (a, found, ground arith)
  ]

  global_step-IsValid :
      (cfg : RateLimitConfig) (s : Store ext) (now : ℕ)
      → IsValid ext s
      → IsValid ext (admit_global ext cfg s now).0
  global_step-IsValid cfg s now v = elim (global_step_cases cfg s now) [
    | inl same ↦ rw same v
    | inr (a, found, asked) ↦ rw asked (allow_at-IsValid a s now v)
  ]

  global_step-Untouched :
      (cfg : RateLimitConfig) (s : Store ext) (now : ℕ) (t : Table) (k : String)
      → IsValid ext s
      → Untouched t k s (admit_global ext cfg s now).0
  global_step-Untouched cfg s now t k v = elim (global_step_cases cfg s now) [
    | inl same ↦ rw same (λ es e. (e, refl))
    | inr (a, found, asked) ↦
        rw asked (allow_at-Untouched a s now t k (λ es e. v.global_apart a t k es found e))
  ]

  ip_step-IsValid :
      (cfg : RateLimitConfig) (ip : String) (now : ℕ) (s : Store ext) (p : Admission)
      → IsValid ext s
      → IsValid ext (admit_ip ext cfg ip now (s, p)).0
  unfolding admit_ip
  ip_step-IsValid cfg ip now s (too_many h) v = v
  ip_step-IsValid cfg ip now s (next used limit left) v = elim (Option-cases (active cfg.per_ip)) [
    | inl missing ↦ rw (missing, admit_ip) v
    | inr (e, found) ↦
        rw (found, admit_ip)
          (rw use_limiter_store
            (allow_at-IsValid _ _ now (get_or_create-IsValid ext s v "ip" ip e now)))
  ]

  ip_step-Untouched :
      (cfg : RateLimitConfig) (ip other : String) (now : ℕ) (s : Store ext) (p : Admission)
      → IsValid ext s
      → ip ≢ other
      → Untouched per_ip other s (admit_ip ext cfg ip now (s, p)).0
  unfolding admit_ip
  ip_step-Untouched cfg ip other now s (too_many h) v differs = λ es e. (e, refl)
  ip_step-Untouched cfg ip other now s (next used limit left) v differs =
      elim (Option-cases (active cfg.per_ip)) [
        | inl missing ↦ rw (missing, admit_ip) (λ es e. (e, refl))
        | inr (e, found) ↦
            rw (found, admit_ip)
              (rw use_limiter_store (
                get_or_create-allow_at-Untouched s "ip" ip e now per_ip other v
                  (λ (_, same). differs same)))
      ]

  -- The RateLimit middleware keeps a valid store valid: distinct keys in each map, every address in
  -- the heap, and no limiter shared by two keys.
  pub admit-IsValid :
      (cfg : RateLimitConfig) (s : Store ext) (ip : String) (now : ℕ)
      → IsValid ext s
      → IsValid ext (admit ext cfg s ip now).0
  unfolding admit
  admit-IsValid cfg s ip now v =
      ip_step-IsValid cfg ip now _ (admit_global ext cfg s now).1 (global_step-IsValid cfg s now v)

  -- On a valid store, a request from one IP, let through or not, leaves the entry of every other
  -- IP, and the state of the limiter that it points to, as they were.
  pub admit-Untouched :
      (cfg : RateLimitConfig) (s : Store ext) (ip other : String) (now : ℕ)
      → IsValid ext s
      → ip ≢ other
      → Untouched per_ip other s (admit ext cfg s ip now).0
  unfolding admit
  admit-Untouched cfg s ip other now v differs =
      let s' = (admit_global ext cfg s now).0 in
      Untouched-trans per_ip other s s' _ (global_step-Untouched cfg s now per_ip other v) (
        ip_step-Untouched cfg ip other now s' (admit_global ext cfg s now).1
          (global_step-IsValid cfg s now v) differs)
