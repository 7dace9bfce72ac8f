-- ===== src/Lib.antt =====
-- sdk-api is a Go framework that serves HTTP APIs from a declarative configuration. This library
-- models the parts that decide something by themselves: who may do what, how many requests pass,
-- what becomes of a job, a migration, an upload, a token or a page of rows.
--
-- The program's parts and how they interact. A request passes the middleware of
-- server/middleware: the rate limits before authentication (RateLimit), the CSRF check (Csrf), and,
-- once the caller is known, the limits per user, key and role (RateLimit again). Roles and
-- permissions come from runtime/auth (Auth). List requests are read by runtime/pagination.go and
-- answered by db/pagination.go (Pagination). An asynchronous entry puts a job into a store and
-- answers at once; a goroutine runs it, and a reaper cleans up (Jobs). Uploads are spooled to disk
-- first (Spool). OAuth servers keep their sessions in a table (OauthStore). Events are consumed from a broker
-- (Consumer), taken to the workers of an exit (Exit) and published from an outbox table (Outbox). Queries
-- are written for PostgreSQL and rewritten for the other databases (Query). Requests to other servers pass
-- a guard (Ssrf). Before all this the service migrates its database (Migrations).
--
-- Base             shared names: numbers, lists, maps as association lists (Base/Maps), bytes, text and
--                  decimal numbers (Base/Text, Base/Decimal)
-- Auth             runtime/auth/role.go
--   Auth/Role        RoleHierarchy: Inherits (`inherits`), Satisfies (`satisfies`)
--   Auth/Permission  MatchPermission, MatchAnyPermission, indexByte
-- RateLimit        server/middleware/rate_limit.go and limiter_sliding.go
--   RateLimit/Window   slidingWindowLimiter: Allow, Remaining, Cancel
--   RateLimit/Limiter  the limiter interface, newLimiter; the token buckets are a parameter
--   RateLimit/Store    rateLimiterStore: getOrCreateLimiter (`get_or_create`), gc
--   RateLimit/Handler  RateLimit (`admit`, `settle`), RateLimitPost (`admit_post`)
-- Jobs             runtime/async_store.go and runtime/async_job.go
--   Jobs/Store       memoryJobStore: Create, Get, Update, Delete, List, ReapStale, Cleanup
--   Jobs/Manager     HandleSubmit with its goroutine as a step relation, HandleStatus, HandleCancel
--   Jobs/Callback    notifyCallback; the HTTP client is a parameter
--   Jobs/Postgres    runtime/async_store_pg.go: the store on Postgres; JSON, what a column keeps of a
--                    time and what a LIMIT leaves are parameters
--   Jobs/Entry       runtime/entry_async.go and async_store_factory.go: resolveAsyncStore, registerAsync up to
--                    its routes, setupAsyncReaper
--   Jobs/Nats        runtime/async_store_nats.go: the store on NATS; JSON and the calls that the bucket refuses
--                    are parameters
--   Jobs/Redis       runtime/async_store_redis.go: the store on Redis, which has no lock; JSON and the keys
--                    of a scan are parameters
-- Migrations       db/migrations.go
--   Migrations/Statements  splitStatements
--   Migrations/Files       NewMigrator; the directory and the checksum are parameters
--   Migrations/Runner      Status, Up, Down, applyOne; the database is a parameter
-- Spool            server/spool.go: SpoolToFile; the stream and the file system are parameters
-- OauthStore       server/auth/oauthstore/store.go: sessions, rotation, revocation (OauthStore/Tokens
--                  has the operations of each kind of session)
-- Csrf             server/middleware/csrf.go
-- Ssrf             server/middleware/ssrf.go: NewSafeHTTPClient, validate, DoURL up to the URL that is sent;
--                  the resolver and the parsing of URLs are parameters
-- Outbox           runtime/outbox.go: InsertOutbox, relayOnce, the ticks of Start; the broker and the
--                  database answer as a parameter says
-- Retry            server/middleware/retry.go; what each call of c.Next() comes to is a parameter
-- ResponseCache    server/middleware/response_cache.go
-- Consumer         events/consumer.go: processMsg, the goroutine of ConsumePull; the broker and the
--                  handler are parameters
-- Query            db/query.go: the expressions of each dialect
--   Query/Upsert     UpsertClause, translateMySQLUpsert with its regular expression; the letter case
--                    of a whole query is a parameter
--   Query/Rewrite    Rewrite (`rewrite`, `rewrite_from` for its loop)
--   Query/Reading    what a query in PostgreSQL's syntax means, piece by piece; Query/Translated has the
--                    proof that Rewrite follows it, Query/InList and Query/Conflict compare the clauses
-- Exit             runtime/exit.go: the goroutines of a worker as a step relation; what they reach is in
--                  Exit/Conserved, Exit/Bounds, Exit/Draining and Exit/Outcomes
--   Exit/Process     processTask; the handler, the hooks and the broker are parameters
--   Exit/Start       ExitWorkerManager.Start, startExitWorker, ExitWorker.Validate; Exit/Start/Left has
--                    which goroutines Shutdown leaves
-- Pagination       runtime/pagination.go (Params) and db/pagination.go (Pages)
--
-- State and time. A lock makes a method one step; the clock is an argument. Where objects are shared
-- by pointer (the limiters of a store), the model has a heap and addresses. A Go map is an
-- association list with distinct keys. Goroutines are interleaved by the steps of Jobs/Manager and of
-- Exit.
--
-- Bounds and fuel. `inherits` runs on one unit of fuel more than the hierarchy has keys; every role
-- that is visited and has parents is a key, and is visited once, so the fuel is enough. `walk` in
-- Pagination runs on the number of rows, since every page but the last holds a row. `itoa` recurs on
-- the accessibility of the smaller number. The other loops
-- are structural. A retry loop has its number of rounds. The offset of a page wraps as a 64-bit
-- integer; `parse_int` has the range of an int. Other numbers are taken to stay in range: times,
-- counters, the versions of migrations. The sliding window computes its rate in float64; the model
-- computes it exactly.
--
-- Not modelled. Drivers, brokers, identity services and the HTTP framework, which are I/O or third
-- parties; infra, which is derived from go-zero; the generators of documents and code; the
-- configuration and its wiring. What the code needs of
-- the token buckets, the file system, the database and the network is a parameter.
pub mod Base
pub mod Auth
pub mod RateLimit
pub mod Jobs
pub mod Migrations
pub mod Spool
pub mod OauthStore
pub mod Csrf
pub mod Pagination
pub mod Consumer
pub mod Query
pub mod Exit
pub mod Ssrf
pub mod Outbox
pub mod Retry
pub mod ResponseCache
