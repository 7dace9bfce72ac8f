-- ===== src/Jobs/Entry/Timeouts.antt =====
-- runtime/entry_async.go and async_store_factory.go: the store, the manager and the reaper of an entry.
use sdk_api.Base.{
  ℕ, subst, zero, suc, ◌*◌, ◌<◌, String, ◌≡◌, refl, sym, ◌∙◌, inl, inr, Bool, true, false, not,
  ◌&&◌, ◌||◌, Option, none, some, List, arith, ◌==◌, nat_eq, string_eq, if◌then◌else◌, Bool-cases,
  Option-cases, contains,
}
use sdk_api.Base.Decimal.{ℤ, pos, negsuc}
use sdk_api.Jobs.Store.{minute}
use sdk_api.Jobs.Entry.{
  AsyncStoreConf, EntryDef, Connections, StoreKind, unknown_driver, Resolved, store, no_store,
  positive_or, second, resolve_pg_store, resolve_redis_store, resolve_nats_store, resolve_driver,
  ReaperConf, ManagerConf, Registration, registered, no_path, no_handler, resolve_async_path,
  parse_duration_def, get_processing_timeout, resolve_async_store, setup_async_reaper, manager_of,
  register_async,
}
use sdk_api.Jobs.Entry.Panics.{some-injective, some_not_none, registered_not_panicked}

positive_or_positive : (default : ℕ) (d : ℤ) → 0 < default → 0 < positive_or default d
positive_or_positive default (pos zero) h = h
positive_or_positive default (pos (suc n)) h = omega arith
positive_or_positive default (negsuc n) h = h

registered-injective : (m n : ManagerConf) → registered m ≡ registered n → m ≡ n
registered-injective m n e = cc

-- A reaper goes with these settings of its manager.
abbrev pub Goes : (timeout max_retry : ℕ) (cleanup_ttl : ℤ) → ReaperConf → Type 0
Goes timeout max_retry cleanup_ttl r =
    (r.timeout ≡ timeout)
    × (0 < r.interval)
    × (r.max_retry ≡ max_retry)
    × (0 < r.max_retry)
    × (r.cleanup_ttl ≡ cleanup_ttl)

abbrev pub Agrees : ManagerConf → Type 0
Agrees m =
    (0 < m.processing_timeout)
    × ((r : ReaperConf) → m.reaper ≡ some r → Goes m.processing_timeout m.max_retry m.cleanup_ttl r)

reaper_agrees :
    (timeout max_retry : ℕ) (ttl : ℤ) (r : ReaperConf)
    → Goes timeout max_retry ttl r
    → (q : ReaperConf) → some r ≡ some q
    → Goes timeout max_retry ttl q
reaper_agrees timeout max_retry ttl r goes q e =
    subst (Goes timeout max_retry ttl) (some-injective r q e) goes

-- A store that is resolved has this timeout.
abbrev pub HasTimeout : ℕ → Resolved → Type 0
HasTimeout t (store kind timeout) = timeout ≡ t
HasTimeout t (no_store error) = Unit

if-HasTimeout :
    (t : ℕ) (b : Bool) (x y : Resolved)
    → HasTimeout t x
    → HasTimeout t y
    → HasTimeout t (if b then x else y)
if-HasTimeout t true x y hx hy = hx
if-HasTimeout t false x y hx hy = hy

resolve_pg_store-HasTimeout :
    (conns : Connections) (conf : AsyncStoreConf) (t : ℕ)
    → HasTimeout t (resolve_pg_store conns conf t)
unfolding resolve_pg_store
resolve_pg_store-HasTimeout conns conf t = ground arith

resolve_redis_store-HasTimeout :
    (conns : Connections) (conf : AsyncStoreConf) (t : ℕ)
    → HasTimeout t (resolve_redis_store conns conf t)
unfolding resolve_redis_store
resolve_redis_store-HasTimeout conns conf t = ground arith

resolve_nats_store-HasTimeout :
    (conns : Connections) (conf : AsyncStoreConf) (t : ℕ)
    → HasTimeout t (resolve_nats_store conns conf t)
unfolding resolve_nats_store
resolve_nats_store-HasTimeout conns conf t = ground arith

resolve_driver-HasTimeout :
    (conns : Connections) (conf : Option AsyncStoreConf) (t : ℕ)
    → HasTimeout t (resolve_driver conns conf t)
unfolding resolve_driver
resolve_driver-HasTimeout conns none t = refl
resolve_driver-HasTimeout conns (some conf) t =
    let postgres = resolve_pg_store-HasTimeout conns conf t in
    let redis = resolve_redis_store-HasTimeout conns conf t in
    let nats = resolve_nats_store-HasTimeout conns conf t in
    if-HasTimeout t (conf.driver == "" || conf.driver == "memory") _ _ refl (
      if-HasTimeout t (conf.driver == "postgres") _ _ postgres (
        if-HasTimeout t (conf.driver == "redis") _ _ redis
          (if-HasTimeout t (conf.driver == "nats_kv") _ (no_store unknown_driver) nats tt)))

registered_last :
    (a b : Bool) (r : Registration) (m : ManagerConf)
    → (if a then no_path else if b then no_handler else r) ≡ registered m
    → r ≡ registered m
registered_last true b r m e = absurd (cc)
registered_last false true r m e = absurd (cc)
registered_last false false r m e = e

module _ (parse_duration : String → Option ℤ) where
  resolve_async_store_timeout :
      (conns : Connections) (entry : EntryDef) (kind : StoreKind) (t : ℕ)
      → resolve_async_store parse_duration conns entry ≡ store kind t
      → t ≡ get_processing_timeout parse_duration entry
  unfolding resolve_async_store
  resolve_async_store_timeout conns entry kind t e =
      subst (HasTimeout (get_processing_timeout parse_duration entry)) e
        (resolve_driver-HasTimeout conns entry.async_store _)

  manager_of-Agrees :
      (path : String) (has : Bool) (entry : EntryDef) (conf : AsyncStoreConf) (m : ManagerConf)
      → entry.async_store ≡ some conf
      → manager_of parse_duration path has entry ≡ registered m
      → (m.processing_timeout ≡ get_processing_timeout parse_duration entry) × Agrees m
  unfolding manager_of get_processing_timeout setup_async_reaper
  manager_of-Agrees path has entry conf m is e = elim (Option-cases conf.reassign) [
    | inl missing ↦ absurd (registered_not_panicked m (sym (rw (manager_of, is, missing) at e)))
    | inr (reassign, found) ↦
        let duration = parse_duration_def parse_duration in
        let timeout = positive_or (5 * minute) (duration reassign.processing_timeout) in
        let timed : get_processing_timeout parse_duration entry ≡ timeout =
          rw (get_processing_timeout, is, found) refl in
        let above : 0 < timeout = positive_or_positive (5 * minute) _ (omega arith) in
        elim (Bool-cases reassign.enabled) [
          | inl on ↦
              subst
                (λ (n : ManagerConf).
                  (n.processing_timeout ≡ get_processing_timeout parse_duration entry) × Agrees n)
                (registered-injective _ m
                  (rw (manager_of, is, found, setup_async_reaper, is, found, on) at e))
                (
                  sym timed,
                  (
                    above,
                    reaper_agrees _ _ _ _ (
                      refl,
                      positive_or_positive (30 * second) _ (omega arith),
                      refl,
                      positive_or_positive 3 reassign.max_retries (omega arith),
                      refl,
                    ),
                  ),
                )
          | inr off ↦
              subst
                (λ (n : ManagerConf).
                  (n.processing_timeout ≡ get_processing_timeout parse_duration entry) × Agrees n)
                (registered-injective _ m
                  (rw (manager_of, is, found, setup_async_reaper, is, found, off) at e))
                (sym timed, (above, λ r none_. absurd (some_not_none r (sym none_))))
        ]
  ]

  -- Where an asynchronous entry with a section for its store gets a store and is registered, the
  -- store and the manager have the same processing timeout, which is above 0, and a reaper that is
  -- started has that timeout, the retries of the manager, at least one, its time to live, and an
  -- interval above 0.
  pub timeouts_agree :
      (conns : Connections) (handlers : List String) (prefix : String) (entry : EntryDef)
      (conf : AsyncStoreConf) (kind : StoreKind) (timeout : ℕ) (m : ManagerConf)
      → entry.async_store ≡ some conf
      → resolve_async_store parse_duration conns entry ≡ store kind timeout
      → register_async parse_duration handlers prefix entry ≡ registered m
      → (m.processing_timeout ≡ timeout) × Agrees m
  unfolding register_async
  timeouts_agree conns handlers prefix entry conf kind timeout m is resolved done =
      let path = resolve_async_path prefix entry in
      let has = contains handlers entry.handler in
      let made =
        registered_last (path == "") (not (entry.handler == "") && not has)
          (manager_of parse_duration path has entry) m done in
      let (timed, agrees) = manager_of-Agrees path has entry conf m is made in
      (timed ∙ sym (resolve_async_store_timeout conns entry kind timeout resolved), agrees)
