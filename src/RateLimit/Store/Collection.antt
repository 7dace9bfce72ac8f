-- ===== src/RateLimit/Store/Collection.antt =====
-- server/middleware/rate_limit.go: the collection of stale entries cannot be observed.
use sdk_api.Base.{
  ℕ, ◌≤◌, String, ◌≡◌, refl, sym, ap, ◌∙◌, inl, inr, true, false, arith, nat_eq, string_eq,
  Option-cases, length,
}
use sdk_api.RateLimit.Limiter.{External, RateLimitEntry}
use sdk_api.RateLimit.Store.{
  EntryState, Table, table_of, is_live, is_stale, Store, create, get_or_create, gc,
}
use sdk_api.RateLimit.Store.Entries.{
  entry_at, create_heap, LiveAt, NoneLive, LiveAt-cases, get_or_create_of_live,
  get_or_create_of_NoneLive, entry_at-gc,
}
use sdk_api.RateLimit.Store.Ownership.{IsValid}

-- What is stale at one time is not live later.
stale_not_live :
    (es : EntryState) (at now : ℕ) → at ≤ now → is_live es now ≡ true → is_stale es at ≡ false
stale_not_live es at now le live = ground arith

module _ (ext : External) (s : Store ext) (v : IsValid ext s) (at now : ℕ) (later : at ≤ now) where
  LiveAt-gc :
      (t : Table) (k : String) (es : EntryState)
      → LiveAt ext t k s now es
      → LiveAt ext t k (gc ext s at) now es
  LiveAt-gc t k es (found, live) =
      (ground (arith, entry_at-gc ext s at t k v.maps, stale_not_live es at now later live), live)

  NoneLive-gc :
      (t : Table) (k : String) → NoneLive ext t k s now → NoneLive ext t k (gc ext s at) now
  NoneLive-gc t k dead es found = dead es (elim (Option-cases (entry_at ext t k s)) [
    | inl missing ↦ ground (arith, entry_at-gc ext s at t k v.maps)
    | inr (old, there) ↦ ground (arith, entry_at-gc ext s at t k v.maps)
  ])

  gc_fields :
      ((gc ext s at).heap ≡ s.heap)
      × ((gc ext s at).connected ≡ s.connected)
      × ((gc ext s at).alg ≡ s.alg)
  unfolding gc
  gc_fields = (refl, refl, refl)

  create_address :
      (r : Store ext) (prefix key : String) (entry : RateLimitEntry)
      → (create ext r prefix key entry now).1 ≡ length r.heap
  unfolding create
  create_address r prefix key entry = refl

  -- The collection of stale entries is not observed: on a valid store, `getOrCreateLimiter` at any
  -- later time hands out the same limiter and leaves the same limiters, whether the entries were
  -- collected before or not.
  pub get_or_create-gc :
      (prefix key : String) (entry : RateLimitEntry)
      → let with_gc = get_or_create ext (gc ext s at) prefix key entry now in
        let without = get_or_create ext s prefix key entry now in
        (with_gc.1 ≡ without.1) × (with_gc.0.heap ≡ without.0.heap)
  get_or_create-gc prefix key entry =
      let (heap, connected, alg) = gc_fields in
      elim (LiveAt-cases ext (table_of prefix) key s now) [
        | inl (es, (found, live)) ↦
            let (found', live') = LiveAt-gc (table_of prefix) key es (found, live) in
            rw
              (
                get_or_create_of_live ext s prefix key entry now es found live,
                get_or_create_of_live ext (gc ext s at) prefix key entry now es found' live',
              )
              (refl, heap)
        | inr dead ↦
            let dead' = NoneLive-gc (table_of prefix) key dead in
            rw
              (
                get_or_create_of_NoneLive ext s prefix key entry now dead,
                get_or_create_of_NoneLive ext (gc ext s at) prefix key entry now dead',
              )
              (
                create_address (gc ext s at) prefix key entry
                    ∙ ap length heap
                    ∙ sym (create_address s prefix key entry),
                create_heap ext (gc ext s at) prefix key entry now
                    ∙ rw (heap, connected, alg) refl
                    ∙ sym (create_heap ext s prefix key entry now),
              )
      ]
