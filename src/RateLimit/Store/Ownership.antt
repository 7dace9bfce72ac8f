-- ===== src/RateLimit/Store/Ownership.antt =====
-- server/middleware/rate_limit.go: every limiter of the store belongs to one key of one map.
use sdk_api.Base.{
  ℕ, ◌+◌, ◌<◌, String, ◌≡◌, refl, sym, ◌≢◌, ◌⊎◌, inl, inr, Bool, some, arith, ==_iff, nat_eq,
  string_eq, length, length-append, lookup, IsMap,
}
use sdk_api.RateLimit.Limiter.{External, RateLimitEntry}
use sdk_api.RateLimit.Store.{
  EntryState, Table, per_ip, per_user, per_key, table_of, Store, new_store, rows, expiry, create,
  get_or_create, gc,
}
use sdk_api.RateLimit.Store.Entries.{
  table_beq_iff, entry_at, entry_at-create, create_heap, create_global, create-IsMap, LiveAt,
  LiveAt-cases, get_or_create_of_live, get_or_create_of_NoneLive, entry_at-gc, gc-IsMap,
}

module _ (ext : External) where
  -- Each map has distinct keys, every address is in the heap, and no two keys share a limiter, not
  -- of one map nor of two; nor does a key share the global one.
  pub record IsValid (s : Store ext) : Type 0 where
    pub maps : (t : Table) → IsMap (rows ext t s)
    pub in_heap :
        (t : Table) (k : String) (es : EntryState)
        → entry_at ext t k s ≡ some es
        → es.limiter < length s.heap
    pub global_in_heap : (a : ℕ) → s.global ≡ some a → a < length s.heap
    pub own :
        (t u : Table) (k j : String) (es fs : EntryState)
        → entry_at ext t k s ≡ some es
        → entry_at ext u j s ≡ some fs
        → es.limiter ≡ fs.limiter
        → (t ≡ u) × (k ≡ j)
    pub global_apart :
        (a : ℕ) (t : Table) (k : String) (es : EntryState)
        → s.global ≡ some a
        → entry_at ext t k s ≡ some es
        → a ≢ es.limiter

  pub new_store-IsValid :
      (alg : String) (ttl : ℕ) (connected : Bool) → IsValid (new_store ext alg ttl connected)
  unfolding new_store entry_at rows lookup
  new_store-IsValid alg ttl connected = record {
    maps = elim [ per_ip ↦ tt | per_user ↦ tt | per_key ↦ tt ];
    in_heap = λ t k es e. ground arith;
    global_in_heap = λ a e. cc;
    own = λ t u k j es fs e f g. ground arith;
    global_apart = λ a t k es e f. cc;
  }

  module _ (s : Store ext) (v : IsValid s) (prefix key : String) (entry : RateLimitEntry)
      (now : ℕ) where
    -- An entry of the new store is the new one, at the new address, or an old one.
    create_cases :
        (t : Table) (k : String) (es : EntryState)
        → entry_at ext t k (create ext s prefix key entry now).0 ≡ some es
        → ((table_of prefix ≡ t) × (key ≡ k) × (es.limiter ≡ length s.heap))
          ⊎ (entry_at ext t k s ≡ some es)
    create_cases t k es e = ground (
      arith,
      entry_at-create ext s prefix key entry now t k,
      table_beq_iff (table_of prefix) t,
      ==_iff key k,
    )

    create_address : (create ext s prefix key entry now).1 ≡ length s.heap
    unfolding create
    create_address = refl

    length-create : length (create ext s prefix key entry now).0.heap ≡ length s.heap + 1
    length-create = rw create_heap (rw length-append)

    create-IsValid : IsValid (create ext s prefix key entry now).0
    create-IsValid = record {
      maps = λ t. create-IsMap ext s prefix key entry now t v.maps;
      in_heap = λ t k es e. ground (arith, create_cases t k es e, length-create, v.in_heap t k es);
      global_in_heap = λ a e.
          ground
            (arith, create_global ext s prefix key entry now, length-create, v.global_in_heap a);
      own = λ t u k j es fs e f g. ground (
        arith,
        create_cases t k es e,
        create_cases u j fs f,
        v.in_heap t k es,
        v.in_heap u j fs,
        v.own t u k j es fs,
      );
      global_apart = λ a t k es e f. ground (
        arith,
        create_global ext s prefix key entry now,
        create_cases t k es f,
        v.global_in_heap a,
        v.global_apart a t k es,
      );
    }

    -- `getOrCreateLimiter` keeps the store valid, whether it finds an entry or makes one: distinct
    -- keys in each map, every address in the heap, and no limiter shared by two keys or by a key
    -- and the global limit.
    pub get_or_create-IsValid : IsValid (get_or_create ext s prefix key entry now).0
    get_or_create-IsValid = elim (LiveAt-cases ext (table_of prefix) key s now) [
      | inl (es, (found, live)) ↦
          rw (get_or_create_of_live ext s prefix key entry now es found live) v
      | inr dead ↦ rw (get_or_create_of_NoneLive ext s prefix key entry now dead) create-IsValid
    ]

    -- On a valid store, the limiter that `getOrCreateLimiter` hands out is that of a live entry
    -- under the key, in the map of the prefix.
    pub get_or_create_owner :
        (es : EntryState) × LiveAt ext
          (table_of prefix)
          key
          (get_or_create ext s prefix key entry now).0
          now
          es
        × (es.limiter ≡ (get_or_create ext s prefix key entry now).1)
    get_or_create_owner = elim (LiveAt-cases ext (table_of prefix) key s now) [
      | inl (es, (found, live)) ↦
          rw (get_or_create_of_live ext s prefix key entry now es found live)
            (es, (found, live), refl)
      | inr dead ↦ rw (get_or_create_of_NoneLive ext s prefix key entry now dead) (
        record { limiter = length s.heap; expires_at = expiry ext entry s now },
        (
          ground (
            arith,
            entry_at-create ext s prefix key entry now (table_of prefix) key,
            table_beq_iff (table_of prefix) (table_of prefix),
            ==_iff key key,
          ),
          ground arith,
        ),
        sym create_address,
      )
    ]

  gc_heap : (s : Store ext) (now : ℕ) → (gc ext s now).heap ≡ s.heap
  unfolding gc
  gc_heap s now = refl

  gc_global : (s : Store ext) (now : ℕ) → (gc ext s now).global ≡ s.global
  unfolding gc
  gc_global s now = refl

  -- The collection of stale entries keeps a valid store valid.
  pub gc-IsValid : (s : Store ext) (now : ℕ) → IsValid s → IsValid (gc ext s now)
  gc-IsValid s now v = record {
    maps = λ t. gc-IsMap ext s now t v.maps;
    in_heap = λ t k es e. rw (gc_heap s now) (v.in_heap t k es (old t k es e));
    global_in_heap = λ a e. rw (gc_heap s now) (v.global_in_heap a (rw (gc_global s now) at e));
    own = λ t u k j es fs e f. v.own t u k j es fs (old t k es e) (old u j fs f);
    global_apart =
        λ a t k es e f. v.global_apart a t k es (rw (gc_global s now) at e) (old t k es f);
  }
    where
      old :
          (t : Table) (k : String) (es : EntryState)
          → entry_at ext t k (gc ext s now) ≡ some es
          → entry_at ext t k s ≡ some es
      old t k es e = ground (arith, entry_at-gc ext s now t k v.maps)
