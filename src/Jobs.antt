-- ===== src/Jobs.antt =====
-- runtime: asynchronous jobs. async_store.go (the in-memory store and the reaper) and async_job.go
-- (the manager, its handlers and the callback).
pub mod Entry
pub mod Nats
pub mod Postgres
pub mod Redis
pub mod Store
pub mod Manager
pub mod Callback
mod Tests
