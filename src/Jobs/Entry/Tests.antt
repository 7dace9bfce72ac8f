-- ===== src/Jobs/Entry/Tests.antt =====
-- Runs of runtime/entry_async.go and async_store_factory.go.
use sdk_api.Base.{
  ◌*◌, String, ◌≡◌, refl, ◌≢◌, ◌↔◌, ◌⊎◌, true, Option, none, some, [], ◌∷◌, ◌==◌, nat_eq, string_eq,
  if◌then◌else◌, contains,
}
use sdk_api.Base.Decimal.{ℤ, pos, negsuc}
use sdk_api.Jobs.Entry.{
  AsyncReassignConf, AsyncStoreConf, EntryDef, Connections, on_postgres, store, second,
  resolve_pg_store, resolve_driver, ManagerConf, registered, panicked, resolve_async_path,
  parse_duration_def, get_processing_timeout, resolve_async_store, setup_async_reaper, manager_of,
  register_async,
}
use sdk_api.Jobs.Entry.Panics.{MissesReassign, register_async_panics_iff}
use sdk_api.Jobs.Entry.Timeouts.{Agrees, timeouts_agree}

-- A parser that reads one text, as 90 seconds.
abbrev parse : String → Option ℤ
parse s = if s == "90s" then some (pos 90_000_000_000) else none

abbrev everything : Connections
everything = record {
  has_pool = λ name. true;
  has_kv = λ name. true;
  has_broker = λ name. true;
  is_nats = λ name. true;
  makes_table = λ db table. true;
  makes_bucket = λ stream bucket. true;
}

abbrev conf : Option AsyncReassignConf → AsyncStoreConf
conf reassign = record {
  driver = "postgres";
  db = "main";
  table = "";
  kv = "";
  stream = "";
  bucket = "";
  reassign = reassign;
  result_ttl = "";
  max_concurrent = pos 4;
}

abbrev reassign : AsyncReassignConf
reassign = record {
  enabled = true;
  processing_timeout = "90s";
  reap_interval = "";
  max_retries = negsuc 0;
}

abbrev entry : Option AsyncReassignConf → EntryDef
entry r = record { path = "/jobs"; resource = ""; handler = "work"; async_store = some (conf r) }

abbrev manager : ManagerConf
manager = record {
  path = "/v1/jobs";
  has_processor = true;
  max_retry = 3;
  cleanup_ttl = pos 0;
  processing_timeout = 90 * second;
  slots = some 4;
  reaper = some (record {
    timeout = 90 * second;
    interval = 30 * second;
    max_retry = 3;
    cleanup_ttl = pos 0;
  });
}

made : register_async parse ("work" ∷ []) "/v1" (entry (some reassign)) ≡ registered manager
unfolding register_async resolve_async_path manager_of setup_async_reaper parse_duration_def
    contains
made = refl

stored :
    resolve_async_store parse everything (entry (some reassign))
    ≡ store (on_postgres "main" "async_jobs") (90 * second)
unfolding resolve_async_store resolve_driver resolve_pg_store get_processing_timeout
    parse_duration_def
stored = refl

timeouts_agree_example : (90 * second ≡ 90 * second) × Agrees manager
timeouts_agree_example =
    timeouts_agree parse everything ("work" ∷ []) "/v1" (entry (some reassign))
      (conf (some reassign)) (on_postgres "main" "async_jobs") (90 * second) manager refl stored
      made

register_async_panics_iff_example :
    (register_async parse ("work" ∷ []) "/v1" (entry none) ≡ panicked) ↔ (
      (resolve_async_path "/v1" (entry none) ≢ "")
      × (((entry none).handler ≡ "") ⊎ (contains {K = String} ("work" ∷ []) "work" ≡ true))
      × MissesReassign (entry none))
register_async_panics_iff_example = register_async_panics_iff parse ("work" ∷ []) "/v1" (entry none)

-- A store section without a reassign section.
missing_section : register_async parse ("work" ∷ []) "/v1" (entry none) ≡ panicked
unfolding register_async resolve_async_path manager_of contains
missing_section = refl
