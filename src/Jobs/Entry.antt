-- ===== src/Jobs/Entry.antt =====
-- runtime/entry_async.go and async_store_factory.go: how an asynchronous entry gets its store, its manager
-- and its reaper. time.ParseDuration is a parameter; of a route only its path is kept. The options of
-- the entry are those of AsyncStoreConf and AsyncReassignConf in runtime/config.go.
pub mod Panics
pub mod Timeouts
mod Tests
use Prim.Native.String
use sdk_api.Base.{
  ℕ, subst, zero, suc, ◌+◌, ◌-◌, ◌*◌, ◌≤◌, ◌<◌, ◌/◌, ◌%◌, ◌^◌, String, ◌≡◌, refl, sym, ap, ◌∙◌, ◌≢◌,
  ◌↔◌, ◌⊎◌, inl, inr, Bool, true, false, not, ◌&&◌, ◌||◌, Option, none, some, List, [], ◌∷◌, ◌++◌,
  map, arith, ltb, leb, nat_beq, nat_beq_iff, Eq, ◌==◌, ==_iff, nat_eq, string_eq, if◌then◌else◌,
  Bool-cases, Option-cases, is_some, length, get_elem?, set, take, length-append, length-set,
  get_elem?-append_last, get_elem?-append_left, get_elem?-set_ne, get_elem?-set_self, All, Map,
  lookup, insert, delete, lookup-insert, lookup-delete, contains, contains-cons_self,
  contains-cons_of_contains, contains-cons_cases, IsMap, retain, kept, insert-IsMap, delete-IsMap,
  lookup-retain, retain-IsMap,
}
use sdk_api.Base.Decimal.{ℤ, pos, negsuc}
use sdk_api.Jobs.Store.{minute}
use sdk_api.Jobs.Redis.{concat}

-- AsyncReassignConf.
pub record AsyncReassignConf : Type 0 where
  pub enabled : Bool
  pub processing_timeout : String
  pub reap_interval : String
  pub max_retries : ℤ

-- The `async_store` section of an entry; its callback is handed on as it is and left out.
pub record AsyncStoreConf : Type 0 where
  pub driver : String
  pub db : String
  pub table : String
  pub kv : String
  pub stream : String
  pub bucket : String
  pub reassign : Option AsyncReassignConf
  pub result_ttl : String
  pub max_concurrent : ℤ

-- What is used of EntryDef.
pub record EntryDef : Type 0 where
  pub path : String
  pub resource : String
  pub handler : String
  pub async_store : Option AsyncStoreConf

-- The connections of the service, and whether the table and the bucket can be made.
pub record Connections : Type 0 where
  pub has_pool : String → Bool
  pub has_kv : String → Bool
  pub has_broker : String → Bool
  pub is_nats : String → Bool
  pub makes_table : (db table : String) → Bool
  pub makes_bucket : (stream bucket : String) → Bool

-- The store that is made, by its connection and its name there.
pub data StoreKind : Type 0 where
  in_memory : StoreKind
  on_postgres : (db table : String) → StoreKind
  on_redis : (kv prefix : String) → StoreKind
  on_nats : (stream bucket : String) → StoreKind

pub data StoreError : Type 0 where
  unknown_driver name_missing not_found not_nats not_made : StoreError

pub data Resolved : Type 0 where
  store : (kind : StoreKind) (processing_timeout : ℕ) → Resolved
  no_store : StoreError → Resolved

-- A value above 0, or the default.
abbrev pub positive_or : ℕ → ℤ → ℕ
positive_or default (pos zero) = default
positive_or default (pos (suc n)) = suc n
positive_or default (negsuc n) = default

abbrev pub name_or : String → String → String
name_or default name = if name == "" then default else name

abbrev pub second : ℕ
second = 1_000_000_000

-- `resolvePGStore`.
unfoldable pub resolve_pg_store : Connections → AsyncStoreConf → ℕ → Resolved
resolve_pg_store conns conf timeout =
    let table = name_or "async_jobs" conf.table in
    if conf.db == ""
    then no_store name_missing
    else if not (conns.has_pool conf.db)
    then no_store not_found
    else if conns.makes_table conf.db table
    then store (on_postgres conf.db table) timeout
    else no_store not_made

-- `resolveRedisStore`.
unfoldable pub resolve_redis_store : Connections → AsyncStoreConf → ℕ → Resolved
resolve_redis_store conns conf timeout =
    if conf.kv == ""
    then no_store name_missing
    else if not (conns.has_kv conf.kv)
    then no_store not_found
    else store (on_redis conf.kv "job:") timeout

-- `resolveNATSKVStore`.
unfoldable pub resolve_nats_store : Connections → AsyncStoreConf → ℕ → Resolved
resolve_nats_store conns conf timeout =
    let bucket = name_or "async-jobs" conf.bucket in
    if conf.stream == ""
    then no_store name_missing
    else if not (conns.has_broker conf.stream)
    then no_store not_found
    else if not (conns.is_nats conf.stream)
    then no_store not_nats
    else if conns.makes_bucket conf.stream bucket
    then store (on_nats conf.stream bucket) timeout
    else no_store not_made

-- The switch of `resolveAsyncStore` on the driver.
unfoldable pub resolve_driver : Connections → Option AsyncStoreConf → ℕ → Resolved
resolve_driver conns none timeout = store in_memory timeout
resolve_driver conns (some conf) timeout =
    if conf.driver == "" || conf.driver == "memory"
    then store in_memory timeout
    else if conf.driver == "postgres"
    then resolve_pg_store conns conf timeout
    else if conf.driver == "redis"
    then resolve_redis_store conns conf timeout
    else if conf.driver == "nats_kv"
    then resolve_nats_store conns conf timeout
    else no_store unknown_driver

-- A reaper that has been started.
pub record ReaperConf : Type 0 where
  pub timeout : ℕ
  pub interval : ℕ
  pub max_retry : ℕ
  pub cleanup_ttl : ℤ

-- The settings of a manager.
pub record ManagerConf : Type 0 where
  pub path : String
  pub has_processor : Bool
  pub max_retry : ℕ
  pub cleanup_ttl : ℤ
  pub processing_timeout : ℕ
  pub slots : Option ℕ
  pub reaper : Option ReaperConf

-- What `registerAsync` comes to; a missing section that is read panics.
pub data Registration : Type 0 where
  registered : ManagerConf → Registration
  no_path no_handler panicked : Registration

-- `resolveAsyncPath`.
unfoldable pub resolve_async_path : String → EntryDef → String
resolve_async_path prefix entry =
    let rsc = if entry.path == "" then entry.resource else entry.path in
    if rsc == "" then "" else concat prefix rsc

-- The capacity of the semaphore, if there is one.
abbrev pub slots_of : ℤ → Option ℕ
slots_of (pos zero) = none
slots_of (pos (suc n)) = some (suc n)
slots_of (negsuc n) = none

module _ (parse_duration : String → Option ℤ) where
  -- `parseDurationDef`.
  unfoldable pub parse_duration_def : String → ℤ
  parse_duration_def s =
      if s == "" then pos 0 else elim (parse_duration s) [ none ↦ pos 0 | some d ↦ d ]

  -- `getProcessingTimeout`.
  unfoldable pub get_processing_timeout : EntryDef → ℕ
  get_processing_timeout entry = elim entry.async_store [
    | none ↦ 5 * minute
    | some conf ↦ elim conf.reassign [
      | none ↦ 5 * minute
      | some reassign ↦ positive_or (5 * minute) (parse_duration_def reassign.processing_timeout)
    ]
  ]

  -- `resolveAsyncStore`.
  unfoldable pub resolve_async_store : Connections → EntryDef → Resolved
  resolve_async_store conns entry =
      resolve_driver conns entry.async_store (get_processing_timeout entry)

  -- `setupAsyncReaper`: the retries, the time to live, and the reaper.
  unfoldable pub setup_async_reaper : EntryDef → ℕ × ℤ × Option ReaperConf
  setup_async_reaper entry = elim entry.async_store [
    | none ↦ (0, pos 0, none)
    | some conf ↦
        let ttl = parse_duration_def conf.result_ttl in
        elim conf.reassign [
          | none ↦ (0, ttl, none)
          | some reassign ↦
              let max_retries = positive_or 3 reassign.max_retries in
              if not reassign.enabled then (0, ttl, none) else (
                max_retries,
                ttl,
                some (record {
                  timeout =
                      positive_or (5 * minute) (parse_duration_def reassign.processing_timeout);
                  interval = positive_or (30 * second) (parse_duration_def reassign.reap_interval);
                  max_retry = max_retries;
                  cleanup_ttl = ttl;
                }),
              )
        ]
  ]

  -- The settings of the manager of `registerAsync`.
  unfoldable pub manager_of : (path : String) (has_processor : Bool) → EntryDef → Registration
  manager_of path has_processor entry =
      let (max_retry, ttl, reaper) = setup_async_reaper entry in
      elim entry.async_store [
        | none ↦ registered (record {
          path = path;
          has_processor = has_processor;
          max_retry = max_retry;
          cleanup_ttl = pos 0;
          processing_timeout = 0;
          slots = none;
          reaper = reaper;
        })
        | some conf ↦ elim conf.reassign [
          | none ↦ panicked
          | some reassign ↦ registered (record {
            path = path;
            has_processor = has_processor;
            max_retry = max_retry;
            cleanup_ttl = ttl;
            processing_timeout =
                positive_or (5 * minute) (parse_duration_def reassign.processing_timeout);
            slots = slots_of conf.max_concurrent;
            reaper = reaper;
          })
        ]
      ]

  -- `registerAsync`; `handlers` has the names that `resolveAsyncHandler` finds.
  unfoldable pub register_async :
      (handlers : List String) (prefix : String) → EntryDef → Registration
  register_async handlers prefix entry =
      let path = resolve_async_path prefix entry in
      let has_processor = contains handlers entry.handler in
      if path == ""
      then no_path
      else if not (entry.handler == "") && not has_processor
      then no_handler
      else manager_of path has_processor entry
