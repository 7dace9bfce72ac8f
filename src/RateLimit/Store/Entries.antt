-- ===== src/RateLimit/Store/Entries.antt =====
-- server/middleware/rate_limit.go: what the store's maps hold after each operation.
use sdk_api.Base.{
  ℕ, String, ◌≡◌, ◌↔◌, ◌⊎◌, inl, inr, true, false, not, ◌&&◌, Option, some, [], ◌∷◌, ◌++◌, arith,
  ◌==◌, nat_eq, string_eq, if◌then◌else◌, Bool-cases, Option-cases, length, Map, lookup,
  lookup-insert, lookup-delete, IsMap, kept, insert-IsMap, delete-IsMap, lookup-retain,
  retain-IsMap,
}
use sdk_api.RateLimit.Limiter.{External, Limiter, RateLimitEntry, new_limiter}
use sdk_api.RateLimit.Store.{
  EntryState, Table, per_ip, per_user, per_key, table_beq, table_of, is_live, is_stale, Store, rows,
  put_rows, alloc, limiter_key, expiry, create, get_or_create, gc,
}

pub table_beq_iff : (t u : Table) → (table_beq t u ≡ true) ↔ (t ≡ u)
table_beq_iff t u = ground arith

module _ (ext : External) where
  unfoldable pub entry_at : Table → String → Store ext → Option EntryState
  entry_at t k s = lookup k (rows ext t s)

  rows-put_rows :
      (t u : Table) (m : Map String EntryState) (s : Store ext)
      → rows ext u (put_rows ext t m s) ≡ (if table_beq t u then m else rows ext u s)
  unfolding rows put_rows
  rows-put_rows t u m s = ground arith

  rows-alloc :
      (t : Table) (l : Limiter ext) (s : Store ext) → rows ext t (alloc ext l s) ≡ rows ext t s
  unfolding rows alloc
  rows-alloc t l s = ground arith

  -- A new entry is found under its own key, and no other key is touched.
  pub entry_at-create :
      (s : Store ext) (prefix key : String) (entry : RateLimitEntry) (now : ℕ) (u : Table)
      (j : String)
      → entry_at u j (create ext s prefix key entry now).0 ≡ (
          if table_beq (table_of prefix) u && key == j
          then some (record { limiter = length s.heap; expires_at = expiry ext entry s now })
          else entry_at u j s)
  unfolding create entry_at
  entry_at-create s prefix key entry now u j = elim (Bool-cases (table_beq (table_of prefix) u)) [
    | inl same ↦
        let e = (table_beq_iff (table_of prefix) u).0 same in
        rw (rows-put_rows, same, lookup-insert, lookup-delete, e) (ground arith)
    | inr other ↦ rw (rows-put_rows, other, rows-alloc)
  ]

  -- Above the old heap stands the new limiter.
  pub create_heap :
      (s : Store ext) (prefix key : String) (entry : RateLimitEntry) (now : ℕ)
      → (create ext s prefix key entry now).0.heap
        ≡ s.heap ++ new_limiter ext (limiter_key prefix key) entry s.connected s.alg ∷ []
  unfolding create put_rows
  create_heap s prefix key entry now = ground arith

  pub create_global :
      (s : Store ext) (prefix key : String) (entry : RateLimitEntry) (now : ℕ)
      → (create ext s prefix key entry now).0.global ≡ s.global
  unfolding create put_rows
  create_global s prefix key entry now = ground arith

  pub create-IsMap :
      (s : Store ext) (prefix key : String) (entry : RateLimitEntry) (now : ℕ) (u : Table)
      → ((t : Table) → IsMap (rows ext t s))
      → IsMap (rows ext u (create ext s prefix key entry now).0)
  unfolding create
  create-IsMap s prefix key entry now u h = elim (Bool-cases (table_beq (table_of prefix) u)) [
    | inl same ↦
        rw (rows-put_rows, same)
          (insert-IsMap key _ _
            (delete-IsMap key (rows ext (table_of prefix) s) (h (table_of prefix))))
    | inr other ↦ rw (rows-put_rows, other, rows-alloc) (h u)
  ]

  -- `getOrCreateLimiter` by cases: a live entry is used as it is, and else one is created.
  pub get_or_create_of_live :
      (s : Store ext) (prefix key : String) (entry : RateLimitEntry) (now : ℕ) (es : EntryState)
      → entry_at (table_of prefix) key s ≡ some es
      → is_live es now ≡ true
      → get_or_create ext s prefix key entry now ≡ (s, es.limiter)
  unfolding get_or_create entry_at
  get_or_create_of_live s prefix key entry now es found live =
      let listed : lookup key (rows ext (table_of prefix) s) ≡ some es = found in
      rw (listed, get_or_create) (rw live)

  abbrev pub LiveAt : Table → String → Store ext → ℕ → EntryState → Type 0
  LiveAt t k s now es = (entry_at t k s ≡ some es) × (is_live es now ≡ true)

  abbrev pub NoneLive : Table → String → Store ext → ℕ → Type 0
  NoneLive t k s now = (es : EntryState) → entry_at t k s ≡ some es → is_live es now ≡ false

  pub LiveAt-cases :
      (t : Table) (k : String) (s : Store ext) (now : ℕ)
      → ((es : EntryState) × LiveAt t k s now es) ⊎ NoneLive t k s now
  LiveAt-cases t k s now = elim (Option-cases (entry_at t k s)) [
    | inl missing ↦ inr (λ es found. cc)
    | inr (es, found) ↦ elim (Bool-cases (is_live es now)) [
      | inl live ↦ inl (es, (found, live))
      | inr dead ↦ inr (λ es' found'. ground arith)
    ]
  ]

  pub get_or_create_of_NoneLive :
      (s : Store ext) (prefix key : String) (entry : RateLimitEntry) (now : ℕ)
      → NoneLive (table_of prefix) key s now
      → get_or_create ext s prefix key entry now ≡ create ext s prefix key entry now
  unfolding get_or_create entry_at
  get_or_create_of_NoneLive s prefix key entry now dead =
      elim (Option-cases (lookup key (rows ext (table_of prefix) s))) [
        | inl missing ↦ rw (missing, get_or_create)
        | inr (es, found) ↦ rw (found, get_or_create) (rw (dead es found))
      ]

  -- `gc` removes the stale entries of the three maps and nothing else.
  pub entry_at-gc :
      (s : Store ext) (now : ℕ) (t : Table) (k : String)
      → ((u : Table) → IsMap (rows ext u s))
      → entry_at t k (gc ext s now) ≡ kept (λ k es. not (is_stale es now)) k (entry_at t k s)
  unfolding entry_at gc rows
  entry_at-gc s now per_ip k h = lookup-retain _ k s.ips (h per_ip)
  entry_at-gc s now per_user k h = lookup-retain _ k s.users (h per_user)
  entry_at-gc s now per_key k h = lookup-retain _ k s.keys (h per_key)

  pub gc-IsMap :
      (s : Store ext) (now : ℕ) (t : Table)
      → ((u : Table) → IsMap (rows ext u s))
      → IsMap (rows ext t (gc ext s now))
  unfolding gc rows
  gc-IsMap s now per_ip h = retain-IsMap _ s.ips (h per_ip)
  gc-IsMap s now per_user h = retain-IsMap _ s.users (h per_user)
  gc-IsMap s now per_key h = retain-IsMap _ s.keys (h per_key)
